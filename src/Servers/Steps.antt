-- ===== src/Servers/Steps.antt =====
-- The calls on one server interleaved: what its goroutines do between two locks of the mutex, or a
-- lock and an answer of the executor, is one move. Several calls of `Start`, `Stop` and
-- `ForceRestartStopSequence` may be under way.
use a6_core.Prelude.{ℕ, ◌+◌, ◌-◌, Bool, Option, List, [], ◌∷◌, ltb, if◌then◌else◌}
use a6_core.Servers.Manager.{stopped, running, Result, ok, err, Players, Runtime, idle, with_status}
use a6_core.Servers.Stopping.{
  begin_start, begin_stop, begin_forced_stop, confirm_stopped, release_stop,
}

-- `starts` calls of `Start` wait for the executor. Of the stop sequences, `waiting` have not yet
-- asked it to stop, `polling` poll it, and `ending` are about to run their deferred function.
pub record System : Type 0 where
  pub rt : Runtime
  pub starts : ℕ
  pub waiting : ℕ
  pub polling : ℕ
  pub ending : ℕ

abbrev pub new_system : System
new_system = record { rt = idle; starts = 0; waiting = 0; polling = 0; ending = 0 }

pub data Move : Type 0 where
  start_begins : Move
  start_ends : Bool → Move
  stop_begins force_begins : Move
  stop_issued stop_not_issued : Move
  stop_confirmed poll_times_out : Move
  stop_released : Move
  players_set : Option Players → Move

abbrev after_start : System → Result Runtime → System
after_start s (err e) = s
after_start s (ok rt) = record s { rt = rt; starts = s.starts + 1 }

abbrev after_stop : System → Result Runtime → System
after_stop s (err e) = s
after_stop s (ok rt) = record s { rt = rt; waiting = s.waiting + 1 }

-- A move that is not possible changes nothing.
unfoldable pub step : Move → System → System
step start_begins s = after_start s (begin_start s.rt)
step (start_ends runs) s =
    if ltb 0 s.starts
    then record s {
      rt = with_status (if runs then running else stopped) s.rt;
      starts = s.starts - 1;
    }
    else s
step stop_begins s = after_stop s (begin_stop s.rt)
step force_begins s = after_stop s (begin_forced_stop s.rt)
step stop_issued s =
    if ltb 0 s.waiting then record s { waiting = s.waiting - 1; polling = s.polling + 1 } else s
step stop_not_issued s =
    if ltb 0 s.waiting then record s { waiting = s.waiting - 1; ending = s.ending + 1 } else s
step stop_confirmed s =
    if ltb 0 s.polling
    then record s { rt = confirm_stopped s.rt; polling = s.polling - 1; ending = s.ending + 1 }
    else s
step poll_times_out s =
    if ltb 0 s.polling then record s { polling = s.polling - 1; ending = s.ending + 1 } else s
step stop_released s =
    if ltb 0 s.ending then record s { rt = release_stop s.rt; ending = s.ending - 1 } else s
step (players_set p) s = record s { rt = record (s.rt) { players = p } }

unfoldable pub run : List Move → System → System
unfolding step
run [] s = s
run (m ∷ moves) s = run moves (step m s)

-- the stop sequences under way
abbrev pub in_flight : System → ℕ
in_flight s = s.waiting + s.polling + s.ending
