-- ===== src/Servers/Tests.antt =====
-- The theorems about game servers at concrete inputs.
use a6_core.Prelude.{pos}
use a6_core.Prelude.{
  ℕ, zero, suc, ◌*◌, ◌<◌, ◌≡◌, refl, Bool, true, false, Option, none, some, List, [], ◌∷◌, arith,
}
use a6_core.BedrockPing.{no_response}
use a6_core.Servers.Players.{Shown, PollEnds, poll_players, poll_players_lem}
use a6_core.Servers.Manager.{
  Players, RuntimeMap, assign, new_manager, Runtime, stopped, running, stopping,
}
use a6_core.Servers.Polling.{run_stop_sequence, Sequence, run_stop_sequence_lem}
use a6_core.Servers.Steps.{
  System, new_system, Move, start_begins, start_ends, stop_begins, stop_issued, run, in_flight,
}
use a6_core.Servers.Guard.{one_if, unforced_guard}
use a6_core.Servers.Stale.{force_then_restart, leftover, stale_sequence_stops}

abbrev clock : ℕ → ℕ
clock i = i * 500

-- an error first, then still active, then stopped
abbrev answers : ℕ → Option Bool
answers zero = none
answers (suc zero) = some false
answers (suc (suc i)) = some true

abbrev busy_server : Runtime
busy_server = record {
  status = stopping;
  players = some (record { current = pos 2; max = pos 10 });
  stop_running = true;
}

run_stop_sequence_lem_example :
    Sequence clock answers 1000 true busy_server (run_stop_sequence true 3 clock answers 1000)
run_stop_sequence_lem_example =
    run_stop_sequence_lem true clock answers 1000 500 2 busy_server (λ i. omega arith) (omega arith)

abbrev session : List Move
session = start_begins ∷ start_ends true ∷ stop_begins ∷ stop_begins ∷ stop_issued ∷ []

unforced_guard_example :
    in_flight (run session new_system) ≡ one_if (run session new_system).rt.stop_running
unforced_guard_example = unforced_guard session (tt, (tt, (tt, (tt, (tt, tt)))))

abbrev stopping_system : System
stopping_system = record { rt = busy_server; starts = 0; waiting = 1; polling = 0; ending = 0 }

stale_sequence_stops_example :
    let t = run force_then_restart stopping_system in
    (t.rt.status ≡ running)
    × (t.rt.stop_running ≡ false)
    × (0 < t.waiting)
    × ((run leftover t).rt.status ≡ stopped)
stale_sequence_stops_example = stale_sequence_stops stopping_system (omega arith) refl refl

abbrev running_server : Runtime
running_server = record { status = running; players = none; stop_running = false }

abbrev one_running : RuntimeMap
one_running = assign "minecraft" running_server new_manager

poll_players_lem_example :
    (players : Option Players) × Shown no_response players
    × PollEnds one_running running_server refl players (poll_players no_response one_running)
poll_players_lem_example = poll_players_lem one_running running_server refl no_response
