-- ===== src/Apps/Sessions.antt =====
-- The session that the manager reports is the one that runs on the machine.
use a6_core.Prelude.{
  ℕ, String, Bool, true, false, Option, none, some, List, [], ◌∷◌, ◌≡◌, ◌≢◌, refl, sym, ◌∙◌, ◌⊎◌,
  inl, inr, subst,
}
use a6_core.State.Store.{Store}
use a6_core.Retro.{Reading}
use a6_core.Apps.{
  AppError, close_failed, launch_failed, Session, LaunchInput, Act, launches, closes, Apps,
  Launched, launched, failed, validate, close_current, start, launch_closed, launch_valid, launch,
  closed, close,
}

-- what runs on the machine after these acts, the last one first
abbrev pub running : List Act → Option Session
running [] = none
running (launches c ∷ acts) = some c
running (closes ∷ acts) = none

-- Nothing is launched while something runs.
abbrev OneAtATime : List Act → Type 0
OneAtATime [] = Unit
OneAtATime (launches c ∷ acts) = (running acts ≡ none) × OneAtATime acts
OneAtATime (closes ∷ acts) = OneAtATime acts

abbrev pub Agrees : Apps → Type 0
Agrees s = (running s.performed ≡ s.current) × OneAtATime s.performed

abbrev Closing : Bool → Apps → Bool × Apps → Type 0
Closing ok s (true, t) = Agrees t × (t.current ≡ none)
Closing ok s (false, t) = (t ≡ s) × (ok ≡ false) × (s.current ≢ none)

close_current-Closing :
    (ok : Bool) (current : Option Session) (acts : List Act)
    → Agrees (record { current = current; performed = acts })
    → Closing ok
        (record { current = current; performed = acts })
        (close_current ok (record { current = current; performed = acts }))
close_current-Closing ok none acts h = (h, refl)
close_current-Closing true (some c) acts h = ((refl, h.1), refl)
close_current-Closing false (some c) acts h = (refl, refl, λ n. absurd (cc n))

-- why a launch failed: the request was turned away or the old session could not be closed, and nothing
-- changed; or the old one is gone and the new one could not be started
pub data LaunchFailed (validated : Launched Session) (closes_ok launches_ok : Bool) (s t : Apps)
    : AppError → Type 0 where
  turned_away :
      (e : AppError)
      → validated ≡ failed e
      → t ≡ s
      → LaunchFailed validated closes_ok launches_ok s t e
  not_closed :
      (v : Session)
      → validated ≡ launched v
      → s.current ≢ none
      → closes_ok ≡ false
      → t ≡ s
      → LaunchFailed validated closes_ok launches_ok s t close_failed
  not_started :
      (v : Session)
      → validated ≡ launched v
      → launches_ok ≡ false
      → t.current ≡ none
      → LaunchFailed validated closes_ok launches_ok s t launch_failed

module _ (id : String) (now : ℕ) (validated : Launched Session) (closes_ok launches_ok : Bool) where
  abbrev pub LaunchEnds : Apps → Launched Session × Apps → Type 0
  LaunchEnds s (launched c, t) =
      (t.current ≡ some c)
      × (launches_ok ≡ true)
      × ((v : Session) × (validated ≡ launched v) × (c ≡ record v { id = id; started_at = now }))
  LaunchEnds s (failed e, t) = LaunchFailed validated closes_ok launches_ok s t e

module _ (id : String) (now : ℕ) (validated : Launched Session) (v : Session)
    (ok : validated ≡ launched v) (closes_ok : Bool) (s : Apps) where
  start_lem :
      (launches_ok : Bool) (t : Apps)
      → Agrees t
      → t.current ≡ none
      → let r = start launches_ok (record v { id = id; started_at = now }) t in
        Agrees r.1 × LaunchEnds id now validated closes_ok launches_ok s r
  start_lem true t h n = ((refl, (h.0 ∙ n, h.1)), (refl, refl, (v, ok, refl)))
  start_lem false t h n = ((h.0 ∙ n, h.1), not_started v ok refl refl)

  launch_closed_lem :
      (launches_ok : Bool) (r : Bool × Apps)
      → Agrees s
      → Closing closes_ok s r
      → let r = launch_closed launches_ok (record v { id = id; started_at = now }) r in
        Agrees r.1 × LaunchEnds id now validated closes_ok launches_ok s r
  launch_closed_lem launches_ok (true, t) a h = start_lem launches_ok t h.0 h.1
  launch_closed_lem launches_ok (false, t) a h =
      (subst Agrees (sym h.0) a, not_closed v ok h.2 h.1 h.0)

launch_valid_lem :
    (closes_ok launches_ok : Bool) (id : String) (now : ℕ) (s : Apps)
    (validated o : Launched Session)
    → validated ≡ o
    → Agrees s
    → let r = launch_valid closes_ok launches_ok id now s o in
      Agrees r.1 × LaunchEnds id now validated closes_ok launches_ok s r
launch_valid_lem closes_ok launches_ok id now s validated (failed e) h a = (a, turned_away e h refl)
launch_valid_lem closes_ok launches_ok id now s validated (launched v) h a =
    launch_closed_lem id now validated v h closes_ok s launches_ok (close_current closes_ok s) a
      (close_current-Closing closes_ok s.current s.performed a)

-- While the manager's session is the one that runs on the machine, a launch keeps it so, whichever
-- executor fails, and never launches one session while another runs. It ends in one of four ways: the
-- new session is current, as the request's checks made it; a request was turned away or the old session
-- could not be closed, and nothing changed; or the old one is closed, the new one could not be started,
-- and none is current.
pub launch_lem :
    (read : String → Reading) (store : Store) (closes_ok launches_ok : Bool) (id : String) (now : ℕ)
    (input : LaunchInput) (s : Apps)
    → Agrees s
    → let r = launch read store closes_ok launches_ok id now input s in
      Agrees r.1 × LaunchEnds id now (validate read store input) closes_ok launches_ok s r
unfolding launch
launch_lem read store closes_ok launches_ok id now input s a =
    launch_valid_lem closes_ok launches_ok id now s (validate read store input)
      (validate read store input) refl a

closed_lem :
    (ok : Bool) (s : Apps) (r : Bool × Apps)
    → Agrees s
    → Closing ok s r
    → let r = closed r in
      Agrees r.1
      × (((r.0 ≡ launched tt) × (r.1.current ≡ none)) ⊎ ((r.0 ≡ failed close_failed) × (r.1 ≡ s)))
closed_lem ok s (true, t) a h = (h.0, inl (refl, h.1))
closed_lem ok s (false, t) a h = (subst Agrees (sym h.0) a, inr (refl, h.0))

-- Closing keeps the manager's session the one that runs on the machine. It succeeds, and then none is
-- current, or it fails and nothing changed.
pub close_lem :
    (closes_ok : Bool) (s : Apps)
    → Agrees s
    → let r = close closes_ok s in
      Agrees r.1
      × (((r.0 ≡ launched tt) × (r.1.current ≡ none)) ⊎ ((r.0 ≡ failed close_failed) × (r.1 ≡ s)))
unfolding close
close_lem closes_ok s a =
    closed_lem closes_ok s (close_current closes_ok s) a
      (close_current-Closing closes_ok s.current s.performed a)
