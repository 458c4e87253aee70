-- ===== src/Servers/Polling.antt =====
-- internal/servers/servers.go: `runStopSequence`. Round `i` of the poll begins at `clock i` and
-- `IsStopped` answers `answers i` in it, `none` for an error. Fuel bounds the rounds: a round
-- sleeps for `poll_every`, so `max_wait / poll_every + 1` rounds are enough.
use a6_core.Prelude.{
  ℕ, zero, suc, ◌+◌, ◌*◌, ◌≤◌, ◌<◌, ◌≡◌, refl, subst, inl, inr, Bool, true, false, Option, none,
  some, List, [], ◌∷◌, arith, ltb, Bool-cases, if◌then◌else◌,
}
use native.Mathlib.Decide.{ℕ_discrete}
use a6_core.Servers.Manager.{Runtime, stopped}
use a6_core.Servers.Stopping.{confirm_stopped, release_stop}

abbrev poll_interval : ℕ
poll_interval = 500 * 1000000

abbrev default_max_wait : ℕ
default_max_wait = 60 * 1000000000

pub data Ending : Type 0 where
  not_issued timed_out out_of_fuel : Ending
  confirmed : ℕ → Ending

abbrev says_stopped : Option Bool → Bool
says_stopped none = false
says_stopped (some b) = b

module _ (clock : ℕ → ℕ) (answers : ℕ → Option Bool) (deadline : ℕ) where
  -- the loop `for time.Now().Before(deadline)`
  unfoldable pub poll : ℕ → ℕ → Ending
  poll zero i = out_of_fuel
  poll (suc fuel) i =
      let rest = poll fuel (suc i) in
      if ltb (clock i) deadline
      then (if says_stopped (answers i) then confirmed i else rest)
      else timed_out

-- the calls of the executor
pub data Act : Type 0 where
  broadcasts stops : Act

abbrev last_act : Ending → List Act
last_act timed_out = stops ∷ []
last_act _ = []

-- `runStopSequence`: how it ends, and what it asks of the executor; `issued` is whether the first
-- `executor.Stop` returns no error
unfoldable pub run_stop_sequence : Bool → ℕ → (ℕ → ℕ) → (ℕ → Option Bool) → ℕ → Ending × List Act
unfolding poll
run_stop_sequence false fuel clock answers deadline = (not_issued, broadcasts ∷ stops ∷ [])
run_stop_sequence true fuel clock answers deadline =
    let ending = poll clock answers deadline fuel 0 in
    (ending, broadcasts ∷ stops ∷ last_act ending)

-- what an ending does to the runtime state, its deferred function included
abbrev conclude : Ending → Runtime → Runtime
conclude (confirmed i) rt = release_stop (confirm_stopped rt)
conclude _ rt = release_stop rt

from_next :
    (P : ℕ → Type 0) (i k : ℕ)
    → P i
    → ((j : ℕ) → suc i ≤ j → j < k → P j)
    → (j : ℕ) → i ≤ j
    → j < k
    → P j
from_next P i k h rest j a b = elim (ℕ_discrete i j) [
  | yes e ↦ subst P e h
  | no ne ↦ rest j (omega arith) b
]

module _ (clock : ℕ → ℕ) (answers : ℕ → Option Bool) (deadline : ℕ) where
  -- Round `k` is the first in which the server is reported stopped, and it begins in time.
  pub record FirstStop (i k : ℕ) : Type 0 where
    pub from : i ≤ k
    pub in_time : clock k < deadline
    pub reported : says_stopped (answers k) ≡ true
    pub earlier : (j : ℕ) → i ≤ j → j < k → says_stopped (answers j) ≡ false

  -- Round `k` begins too late, and no round before it reported the server stopped.
  pub record RunsOut (i k : ℕ) : Type 0 where
    pub from : i ≤ k
    pub late : deadline ≤ clock k
    pub earlier : (j : ℕ) → i ≤ j → j < k → says_stopped (answers j) ≡ false

  abbrev Polled : ℕ → Ending → Type 0
  Polled i (confirmed k) = FirstStop i k
  Polled i timed_out = (k : ℕ) × RunsOut i k
  Polled i _ = ⊥

  Polled-later :
      (i : ℕ) (e : Ending) → says_stopped (answers i) ≡ false → Polled (suc i) e → Polled i e
  Polled-later i (confirmed k) h p = record {
    from = omega arith;
    in_time = p.in_time;
    reported = p.reported;
    earlier = λ j a b. from_next (λ j. says_stopped (answers j) ≡ false) i k h p.earlier j a b;
  }
  Polled-later i timed_out h (k, p) = (
    k,
    record {
      from = omega arith;
      late = p.late;
      earlier = λ j a b. from_next (λ j. says_stopped (answers j) ≡ false) i k h p.earlier j a b;
    },
  )
  Polled-later i not_issued h p = p
  Polled-later i out_of_fuel h p = p

  poll_step :
      (fuel i : ℕ)
      → (clock i < deadline → Polled (suc i) (poll clock answers deadline fuel (suc i)))
      → Polled i (poll clock answers deadline (suc fuel) i)
  unfolding poll
  poll_step fuel i next = elim (Bool-cases (ltb (clock i) deadline)) [
    | inr late ↦
        rw (late, poll)
          (
            i,
            record {
              from = omega arith;
              late = ground arith;
              earlier = λ j a b. absurd (omega arith);
            },
          )
    | inl time ↦ elim (Bool-cases (says_stopped (answers i))) [
      | inl e ↦
          rw (time, poll)
            (rw e (record {
              from = omega arith;
              in_time = ground arith;
              reported = e;
              earlier = λ j a b. absurd (omega arith);
            }))
      | inr e ↦
          rw (time, poll)
            (rw e
              (Polled-later i (poll clock answers deadline fuel (suc i)) e (next (ground arith))))
    ]
  ]

  -- Every round takes at least `pace`.
  poll_lem :
      (pace : ℕ)
      → ((i : ℕ) → clock i + pace ≤ clock (suc i))
      → (fuel i : ℕ) → deadline ≤ clock i + fuel * pace
      → Polled i (poll clock answers deadline (suc fuel) i)
  poll_lem pace paced zero i h = poll_step zero i (λ lt. absurd (omega arith))
  poll_lem pace paced (suc fuel) i h =
      poll_step (suc fuel) i (λ _. poll_lem pace paced fuel (suc i) (grind (arith, paced i)))

-- How a stop sequence ends, with what it asked of the executor and did to the runtime state.
abbrev pub Sequence : (ℕ → ℕ) → (ℕ → Option Bool) → ℕ → Bool → Runtime → Ending × List Act → Type 0
Sequence clock answers deadline issued rt (confirmed k, acts) =
    (issued ≡ true)
    × FirstStop clock answers deadline 0 k
    × (acts ≡ broadcasts ∷ stops ∷ [])
    × (conclude (confirmed k) rt
        ≡ record { status = stopped; players = none; stop_running = false })
Sequence clock answers deadline issued rt (timed_out, acts) =
    (issued ≡ true)
    × ((k : ℕ) × RunsOut clock answers deadline 0 k)
    × (acts ≡ broadcasts ∷ stops ∷ stops ∷ [])
    × (conclude timed_out rt ≡ record rt { stop_running = false })
Sequence clock answers deadline issued rt (not_issued, acts) =
    (issued ≡ false)
    × (acts ≡ broadcasts ∷ stops ∷ [])
    × (conclude not_issued rt ≡ record rt { stop_running = false })
Sequence clock answers deadline issued rt (out_of_fuel, acts) = ⊥

poll-Sequence :
    (clock : ℕ → ℕ) (answers : ℕ → Option Bool) (deadline : ℕ) (rt : Runtime) (e : Ending)
    → Polled clock answers deadline 0 e
    → Sequence clock answers deadline true rt (e, broadcasts ∷ stops ∷ last_act e)
unfolding confirm_stopped release_stop
poll-Sequence clock answers deadline rt (confirmed k) p = (refl, p, refl, refl)
poll-Sequence clock answers deadline rt timed_out p = (refl, p, refl, refl)
poll-Sequence clock answers deadline rt not_issued p = absurd p
poll-Sequence clock answers deadline rt out_of_fuel p = absurd p

-- A stop sequence ends, within as many rounds of its poll as fit in the time to wait and one more,
-- and in one of three ways. The graceful stop could not be issued; or the poll, in the first round
-- that reports the server stopped, which begins before the deadline, marks it stopped without
-- players; or a round begins after the deadline with no such report before it. The status changes
-- only in the second case. A second stop is asked of the executor only in the third. The mark of a
-- running sequence is cleared in every case.
pub run_stop_sequence_lem :
    (issued : Bool) (clock : ℕ → ℕ) (answers : ℕ → Option Bool) (deadline pace fuel : ℕ)
    (rt : Runtime)
    → ((i : ℕ) → clock i + pace ≤ clock (suc i))
    → deadline ≤ clock 0 + fuel * pace
    → Sequence clock answers deadline issued rt
        (run_stop_sequence issued (suc fuel) clock answers deadline)
unfolding run_stop_sequence release_stop
run_stop_sequence_lem false clock answers deadline pace fuel rt paced h = (refl, refl, refl)
run_stop_sequence_lem true clock answers deadline pace fuel rt paced h =
    poll-Sequence clock answers deadline rt (poll clock answers deadline (suc fuel) 0)
      (poll_lem clock answers deadline pace paced fuel 0 h)
