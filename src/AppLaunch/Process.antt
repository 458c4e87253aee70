-- ===== src/AppLaunch/Process.antt =====
-- The executor ends the process that it started, and no other.
use a6_core.Prelude.{
  ℕ, zero, suc, String, Bool, true, false, Option, none, some, List, [], ◌∷◌, ◌++◌, ◌≡◌, ◌≢◌, refl,
  ap, ◌⊎◌, inl, inr, not, if_lem, arith,
}
use a6_core.AppLaunch.{
  Signal, term, kill, Executor, LaunchError, no_process, Machine, XInfo, Ending, track, launch_at,
  launch_and_track, end_process, close,
}

-- A failed start changes nothing; one that succeeds starts just this program and tracks its process.
abbrev pub StartEnds :
    Machine → String → List String → Executor → Option LaunchError × Executor → Type 0
StartEnds m bin args e (some x, t) = t ≡ e
StartEnds m bin args e (none, t) =
    (x : XInfo) × (m.x ≡ some x)
    × (m.start ≡ some t.pid)
    × (t.started ≡ record { bin = bin; args = args; x = x } ∷ e.started)
    × (t.signals ≡ e.signals)

track_lem :
    (m : Machine) (bin : String) (args : List String) (x : XInfo) (o : Option ℕ) (e : Executor)
    → m.x ≡ some x
    → m.start ≡ o
    → StartEnds m bin args e (track bin args x o e)
track_lem m bin args x none e h s = refl
track_lem m bin args x (some pid) e h s = (x, h, s, refl, refl)

launch_at_lem :
    (m : Machine) (bin : String) (args : List String) (o : Option XInfo) (e : Executor)
    → m.x ≡ o
    → StartEnds m bin args e (launch_at m bin args o e)
launch_at_lem m bin args none e h = refl
launch_at_lem m bin args (some x) e h = track_lem m bin args x m.start e h refl

launch_and_track_lem :
    (m : Machine) (bin : String) (args : List String) (e : Executor)
    → StartEnds m bin args e (launch_and_track m bin args e)
unfolding launch_and_track
launch_and_track_lem m bin args e = launch_at_lem m bin args m.x e refl

-- A process is tracked and found, and the first signal to it succeeds.
abbrev pub Signallable : ℕ → Ending → Type 0
Signallable pid w = (pid ≢ 0) × (w.found ≡ true) × (w.takes_term ≡ true)

-- what was signalled: nothing, or this process, first politely
pub data Signalled (pid : ℕ) (w : Ending) : List (Signal × ℕ) → Type 0 where
  none_tracked : pid ≡ 0 → Signalled pid w []
  lost : pid ≢ 0 → w.found ≡ false → Signalled pid w []
  ended_before : pid ≢ 0 → w.found ≡ true → w.takes_term ≡ false → Signalled pid w []
  asked : Signallable pid w → w.outlives_grace ≡ false → Signalled pid w ((term, pid) ∷ [])
  killed :
      Signallable pid w → w.outlives_grace ≡ true → Signalled pid w ((kill, pid) ∷ (term, pid) ∷ [])

abbrev pub CloseEnds : Ending → ℕ → Executor → Option LaunchError × Executor → Type 0
CloseEnds w pid e result =
    (result.1.pid ≡ 0)
    × (result.1.started ≡ e.started)
    × ((new : List (Signal × ℕ)) × Signalled pid w new × (result.1.signals ≡ new ++ e.signals))
    × (((result.0 ≡ none) × ((pid ≡ 0) ⊎ (w.found ≡ true)))
        ⊎ ((result.0 ≡ some no_process) × (pid ≢ 0) × (w.found ≡ false)))

suc_ne_zero : (n : ℕ) → suc n ≢ 0
suc_ne_zero n h = omega (arith, h)

of_not : (b : Bool) {c : Bool} → not b ≡ c → b ≡ not c
of_not true h = ap not h
of_not false h = ap not h

end_process_lem :
    (w : Ending) (e : Executor) (pid : ℕ)
    → CloseEnds w pid e (end_process w pid (record e { pid = 0 }))
end_process_lem w e zero = (refl, refl, ([], none_tracked refl, refl), inl (refl, inl refl))
end_process_lem w e (suc n) =
    if_lem (CloseEnds w (suc n) e) (not w.found) _ _
      (λ gone.
        let absent = of_not w.found gone in
        (refl, refl, ([], lost (suc_ne_zero n) absent, refl), inr (refl, suc_ne_zero n, absent)))
      (λ there.
        let found = of_not w.found there in
        if_lem (CloseEnds w (suc n) e) (not w.takes_term) _ _
          (λ fails. (
            refl,
            refl,
            ([], ended_before (suc_ne_zero n) found (of_not w.takes_term fails), refl),
            inl (refl, inr found),
          ))
          (λ takes.
            let able : Signallable (suc n) w = (suc_ne_zero n, found, of_not w.takes_term takes) in
            if_lem (λ t. CloseEnds w (suc n) e (none, t)) w.outlives_grace _ _
              (λ lives. (refl, refl, (_, killed able lives, refl), inl (refl, inr found)))
              (λ dies. (refl, refl, (_, asked able dies, refl), inl (refl, inr found)))))

-- Closing forgets the process that was tracked, so that none is afterwards. A process that was tracked and is
-- found is asked to end, and if it takes that signal it is killed exactly when it outlives the grace
-- period. No signal reaches another process, nor any when none was tracked, the process is not found or the
-- first signal to it fails. Closing fails exactly when a tracked process cannot be found.
pub close_lem : (w : Ending) (e : Executor) → CloseEnds w e.pid e (close w e)
unfolding close
close_lem w e = end_process_lem w e e.pid
