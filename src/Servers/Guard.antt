-- ===== src/Servers/Guard.antt =====
-- The guard `stopRunning` against concurrent stop sequences.
use a6_core.Prelude.{ℕ, ◌≤◌, ◌<◌, ◌≡◌, refl, Bool, true, false, List, [], ◌∷◌, arith, All}
use a6_core.Servers.Stopping.{
  begin_start, begin_stop, begin_forced_stop, confirm_stopped, release_stop,
}
use a6_core.Servers.Steps.{
  System, new_system, Move, start_begins, start_ends, force_begins, stop_released, step, run,
  in_flight,
}

abbrev pub one_if : Bool → ℕ
one_if true = 1
one_if false = 0

-- no use of `force`
abbrev IsUnforced : Move → Type 0
IsUnforced force_begins = ⊥
IsUnforced _ = Unit

IsExact : System → Type 0
IsExact s = in_flight s ≡ one_if s.rt.stop_running

step-IsExact : (m : Move) (s : System) → IsUnforced m → IsExact s → IsExact (step m s)
unfolding step IsExact begin_start begin_stop confirm_stopped release_stop
step-IsExact force_begins s u h = absurd u
step-IsExact start_begins s u h = ground arith
step-IsExact (start_ends runs) s u h = ground arith
step-IsExact _ s u h = ground arith

run-IsExact :
    (moves : List Move) (s : System) → All IsUnforced moves → IsExact s → IsExact (run moves s)
unfolding run
run-IsExact [] s u h = h
run-IsExact (m ∷ moves) s u h = run-IsExact moves (step m s) u.1 (step-IsExact m s u.0 h)

-- Without `force`, however calls and goroutines interleave, a stop sequence is under way exactly
-- while `stopRunning` is set, and there is never more than one.
pub unforced_guard :
    (moves : List Move)
    → All IsUnforced moves
    → in_flight (run moves new_system) ≡ one_if (run moves new_system).rt.stop_running
unfolding IsExact
unforced_guard moves u = run-IsExact moves new_system u refl

IsCovered : System → Type 0
IsCovered s = one_if s.rt.stop_running ≤ in_flight s

step-IsCovered : (m : Move) (s : System) → IsCovered s → IsCovered (step m s)
unfolding step IsCovered begin_start begin_stop begin_forced_stop confirm_stopped release_stop
step-IsCovered stop_released s h = ground arith
step-IsCovered _ s h = ground arith

run-IsCovered : (moves : List Move) (s : System) → IsCovered s → IsCovered (run moves s)
unfolding run
run-IsCovered [] s h = h
run-IsCovered (m ∷ moves) s h = run-IsCovered moves (step m s) (step-IsCovered m s h)

-- Whatever calls are made and however they interleave, forced ones too, `stopRunning` is set only
-- while a stop sequence is under way.
stop_running_covered :
    (moves : List Move)
    → (run moves new_system).rt.stop_running ≡ true
    → 0 < in_flight (run moves new_system)
unfolding IsCovered
stop_running_covered moves h = ground (arith, run-IsCovered moves new_system (omega arith))
