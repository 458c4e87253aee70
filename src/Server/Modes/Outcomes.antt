-- ===== src/Server/Modes/Outcomes.antt =====
-- How a request to switch the mode ends, on every branch.
use a6_core.Prelude.{
  String, Bool, true, false, Option, none, some, List, [], ◌∷◌, ◌≡◌, ◌≢◌, refl, ◌⊎◌, inl, inr,
  length, ◌==◌, Bool-cases, eq_of_test, ne_of_test, ap, sym, arith,
}
use a6_core.State.Disk.Calls.{Faults}
use a6_core.State.Disk.Crash.{saved}
use a6_core.State.Store.{Store, Updated, done, refused, unsaved, update}
use a6_core.State.Store.Atomicity.{SaveFails, Transacts, update-Transacts}
use a6_core.Servers.Manager.{BlockingResource}
use a6_core.Modes.{is_valid, switch, current, set_mode, persisted, perform, checked}
use a6_core.Http.{Request, Response, busy, switched, plain, Env}
use a6_core.Server.App.{App, publish}
use a6_core.Server.Modes.{decode_switch, mode_event, answer_switch, post_decoded, handle_modes_post}

-- the modes that there are
abbrev pub IsMode : String → Type 0
IsMode m = (m ≡ "tv") ⊎ ((m ≡ "server") ⊎ (m ≡ "sleep"))

valid_lem : (m : String) → is_valid m ≡ true → IsMode m
valid_lem m h = elim (Bool-cases ("tv" == m)) [
  | inl e ↦ inl (sym (eq_of_test "tv" m e))
  | inr a ↦ elim (Bool-cases ("server" == m)) [
    | inl e ↦ inr (inl (sym (eq_of_test "server" m e)))
    | inr b ↦ elim (Bool-cases ("sleep" == m)) [
      | inl e ↦ inr (inr (sym (eq_of_test "sleep" m e)))
      | inr c ↦ (let bad : is_valid m ≡ false = rw (a, b, c) refl in absurd (cc (h, bad)))
    ]
  ]
]

invalid_lem : (m : String) → is_valid m ≡ false → IsMode m → ⊥
invalid_lem m h (inl e) = cc (h, ap is_valid e)
invalid_lem m h (inr (inl e)) = cc (h, ap is_valid e)
invalid_lem m h (inr (inr e)) = cc (h, ap is_valid e)

module _ (blocking : List BlockingResource) (obeys : Bool) (faults : Faults) (s : App) where
  -- The request asks for another mode that there is.
  abbrev pub Changes : String → Type 0
  Changes target = IsMode target × (current s.store ≢ target)

  abbrev pub FreeOrForced : Bool → Type 0
  FreeOrForced force = (blocking ≡ []) ⊎ (force ≡ true)

  -- why a body was turned away
  pub data ModeReason (answer : Response) : Option (String × Bool) → Type 0 where
    not_a_switch : answer ≡ plain 400 → ModeReason answer none
    invalid :
        (target : String) (force : Bool)
        → (IsMode target → ⊥)
        → answer ≡ plain 422
        → ModeReason answer (some (target, force))
    busy_resource :
        (target : String) (b : BlockingResource) (bs : List BlockingResource)
        → Changes target
        → blocking ≡ b ∷ bs
        → answer ≡ record { status = 409; answer = busy (length blocking) }
        → ModeReason answer (some (target, false))
    disobeyed :
        (target : String) (force : Bool)
        → Changes target
        → FreeOrForced force
        → obeys ≡ false
        → answer ≡ plain 500
        → ModeReason answer (some (target, force))
    not_saved :
        (target : String) (force : Bool)
        → Changes target
        → FreeOrForced force
        → obeys ≡ true
        → SaveFails (set_mode target) faults s.store
        → answer ≡ plain 500
        → ModeReason answer (some (target, force))

  -- The mode changed, in memory and in the file, and that was announced.
  pub record ModeChanged (target : String) (force : Bool) (result : Response × App) : Type 0 where
    pub valid : IsMode target
    pub other : current s.store ≢ target
    pub free_or_forced : (blocking ≡ []) ⊎ (force ≡ true)
    pub obeyed : obeys ≡ true
    pub answer : result.0 ≡ record { status = 202; answer = switched (current s.store) target }
    pub state : result.1.store.state ≡ record (s.store.state) { mode = target }
    pub durable : result.1.store.disk.primary ≡ saved result.1.store.state
    pub announced : result.1.published ≡ mode_event (current s.store) target ∷ s.published

  -- The mode was the target already: that is announced all the same.
  pub record ModeKept (target : String) (result : Response × App) : Type 0 where
    pub valid : IsMode target
    pub same : current s.store ≡ target
    pub answer : result.0 ≡ record { status = 202; answer = switched target target }
    pub app : result.1 ≡ publish (mode_event target target) s

  abbrev pub ModeEnds : Option (String × Bool) → Response × App → Type 0
  ModeEnds b result =
      (ModeReason result.0 b
        × (result.1.store.state ≡ s.store.state)
        × (result.1.published ≡ s.published))
      ⊎ ((target : String) × (force : Bool) × (b ≡ some (target, force))
          × (ModeKept target result ⊎ ModeChanged target force result))

module _ (blocking : List BlockingResource) (faults : Faults) (s : App) where
  persisted-ModeEnds :
      (target : String) (force : Bool) (u : Updated Unit Unit × Store)
      → IsMode target
      → current s.store ≢ target
      → (blocking ≡ []) ⊎ (force ≡ true)
      → update (set_mode target) faults s.store ≡ u
      → Transacts s.store (set_mode target s.store.state) u
      → let w = persisted (current s.store) target u in
        ModeEnds blocking true faults s
          (some (target, force))
          (answer_switch target s w.0.error w.0 w.1)
  persisted-ModeEnds target force (done a, t) v o f p h = inr (
    target,
    force,
    refl,
    inr (record {
      valid = v;
      other = o;
      free_or_forced = f;
      obeyed = refl;
      answer = refl;
      state = ground arith;
      durable = h.1;
      announced = refl;
    }),
  )
  persisted-ModeEnds target force (refused e, t) v o f p h = absurd (cc (h.0))
  persisted-ModeEnds target force (unsaved e, t) v o f p h =
      inl (not_saved target force (v, o) f refl (e, ap (λ u. u.0) p) refl, h.0, refl)

  perform-ModeEnds :
      (obeys : Bool) (target : String) (force : Bool)
      → IsMode target
      → current s.store ≢ target
      → (blocking ≡ []) ⊎ (force ≡ true)
      → let w = perform obeys faults (current s.store) target s.store in
        ModeEnds blocking obeys faults s
          (some (target, force))
          (answer_switch target s w.0.error w.0 w.1)
  perform-ModeEnds false target force v o f =
      inl (disobeyed target force (v, o) f refl refl, refl, refl)
  perform-ModeEnds true target force v o f =
      persisted-ModeEnds target force (update (set_mode target) faults s.store) v o f refl
        (update-Transacts (set_mode target) faults s.store)

checked-ModeEnds :
    (blocking : List BlockingResource) (obeys : Bool) (faults : Faults) (target : String)
    (force : Bool) (s : App)
    → IsMode target
    → current s.store ≢ target
    → let w = checked force blocking obeys faults (current s.store) target s.store in
      ModeEnds blocking obeys faults s
        (some (target, force))
        (answer_switch target s w.0.error w.0 w.1)
checked-ModeEnds bs obeys faults target true s v o =
    perform-ModeEnds bs faults s obeys target true v o (inr refl)
checked-ModeEnds [] obeys faults target false s v o =
    perform-ModeEnds [] faults s obeys target false v o (inl refl)
checked-ModeEnds (b ∷ bs) obeys faults target false s v o =
    inl (busy_resource target b bs (v, o) refl refl, refl, refl)

kept :
    (blocking : List BlockingResource) (obeys : Bool) (faults : Faults) (s : App) (target : String)
    → IsMode target
    → current s.store ≡ target
    → ModeKept blocking obeys faults s target (
      record { status = 202; answer = switched (current s.store) target },
      publish (mode_event (current s.store) target) s,
    )
kept blocking obeys faults s target v e = record {
  valid = v;
  same = e;
  answer = ap (λ from. record { status = 202; answer = switched from target }) e;
  app = ap (λ from. publish (mode_event from target) s) e;
}

switch-ModeEnds :
    (blocking : List BlockingResource) (obeys : Bool) (faults : Faults) (target : String)
    (force : Bool) (s : App)
    → ModeEnds blocking obeys faults s
        (some (target, force))
        (post_decoded blocking obeys faults (some (target, force)) s)
unfolding switch
switch-ModeEnds bs obeys faults target force s = elim (Bool-cases (is_valid target)) [
  | inr bad ↦ rw bad (inl (invalid target force (invalid_lem target bad) refl, refl, refl))
  | inl v ↦ elim (Bool-cases (current s.store == target)) [
    | inl e ↦ rw v (
        rw e (
          inr (
            target,
            force,
            refl,
            inl (
                kept bs obeys faults s target (valid_lem target v)
                  (eq_of_test (current s.store) target e)),
          )))
    | inr ne ↦ rw v (
        rw ne (
          checked-ModeEnds bs obeys faults target force s (valid_lem target v)
            (ne_of_test (current s.store) target ne)))
  ]
]

post_decoded_lem :
    (blocking : List BlockingResource) (obeys : Bool) (faults : Faults) (b : Option (String × Bool))
    (s : App)
    → ModeEnds blocking obeys faults s b (post_decoded blocking obeys faults b s)
post_decoded_lem bs obeys faults none s = inl (not_a_switch refl, refl, refl)
post_decoded_lem bs obeys faults (some (target, force)) s =
    switch-ModeEnds bs obeys faults target force s

-- A request to switch the mode ends in one of three ways. It changes the mode to a valid and different
-- one, in memory and in the state file, after nothing blocked it or `force` was given and the executor
-- obeyed, answers 202 and announces the change. Or the mode was that one already: the answer and the
-- announcement are those of a change from the mode to itself. Or it changes no state and announces
-- nothing, with 400 for a malformed body, 422 for an invalid mode, 409 with the number of the resources in
-- the way, and 500 when the executor or saving failed.
pub handle_modes_post_lem :
    (blocking : List BlockingResource) (obeys : Bool) (env : Env) (r : Request) (s : App)
    → ModeEnds blocking obeys env.faults s
        (decode_switch r.body)
        (handle_modes_post blocking obeys env r s)
unfolding handle_modes_post
handle_modes_post_lem blocking obeys env r s =
    post_decoded_lem blocking obeys env.faults (decode_switch r.body) s
