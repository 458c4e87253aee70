-- ===== src/Servers/Stale.antt =====
-- A stop sequence that was superseded by a forced one is not cancelled.
use a6_core.Prelude.{◌<◌, ◌≡◌, true, false, List, [], ◌∷◌, arith}
use a6_core.Servers.Manager.{stopped, running, stopping}
use a6_core.Servers.Stopping.{begin_start, begin_forced_stop, confirm_stopped, release_stop}
use a6_core.Servers.Steps.{
  System, Move, start_begins, start_ends, force_begins, stop_issued, stop_confirmed, stop_released,
  run,
}

-- A stop is forced; one of the two sequences stops the server and ends; the server is started
-- again, which succeeds.
abbrev pub force_then_restart : List Move
force_then_restart =
    force_begins
    ∷ stop_issued
    ∷ stop_confirmed
    ∷ stop_released
    ∷ start_begins
    ∷ start_ends true
    ∷ []

-- The other sequence goes on.
abbrev pub leftover : List Move
leftover = stop_issued ∷ stop_confirmed ∷ []

-- From any moment at which a server is stopping, a stop sequence waits to ask the executor and none is
-- about to end, a forced stop and a later successful start lead to a running server with no mark of a
-- stop, while a stop sequence is still waiting; that one then stops the server, which nobody asked for
-- after the start.
pub stale_sequence_stops :
    (s : System)
    → 0 < s.waiting
    → s.rt.status ≡ stopping
    → s.ending ≡ 0
    → let t = run force_then_restart s in
      (t.rt.status ≡ running)
      × (t.rt.stop_running ≡ false)
      × (0 < t.waiting)
      × ((run leftover t).rt.status ≡ stopped)
unfolding run begin_start begin_forced_stop confirm_stopped release_stop
stale_sequence_stops s w st e = ground arith
