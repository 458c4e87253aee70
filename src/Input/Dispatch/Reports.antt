-- ===== src/Input/Dispatch/Reports.antt =====
-- What each message of the phone asks of the devices, and what is reported to it.
use a6_core.Prelude.{
  ◌≢◌, ◌==◌, eq_of_test, ne_of_test, false, true, ℕ, String, Bool, Option, none, some, [], ◌∷◌, ◌≡◌,
  refl, ap, ◌⊎◌, inl, inr, ◌&&◌, if_lem, ℤ, ◌+ℤ◌,
}
use a6_core.Input.Control.{error, enqueue}
use a6_core.Input.Device.{
  Call, mouse_move, Op, InjectError, unknown_key_code, inject, with_code, press_key, release_key,
  key_down, key_up, button_down, button_up, scroll,
}
use a6_core.Input.Keys.{translate_key_code}
use a6_core.Input.Pointer.{is_zero, trunc}
use a6_core.Input.Dispatch.{
  Envelope, Remote, Action, calls_injector, moves_pointer, unknown_action, unknown_type, action_of,
  up_or_down, report, move_by, act, dispatch,
}

-- The message asks for nothing that there is.
abbrev pub HasNoAction : Envelope → Type 0
HasNoAction env =
    ((env.type ≡ "key") ⊎ (env.type ≡ "pointer_button"))
    × (env.action ≢ "down")
    × (env.action ≢ "up")

abbrev pub HasNoType : Envelope → Type 0
HasNoType env =
    (env.type ≢ "key")
    × (env.type ≢ "pointer_move")
    × (env.type ≢ "pointer_button")
    × (env.type ≢ "pointer_scroll")

module _ (scale : ℕ) (round narrow : ℤ → ℤ) (ok : Op → Bool) where
  -- the error of a call
  abbrev pub answers : Call → Option InjectError
  answers c = (inject ok c).0

  -- the call that a message asks for, if it is not to move the pointer
  pub data Names (env : Envelope) : Call → Type 0 where
    presses : env.type ≡ "key" → env.action ≡ "down" → Names env (key_down env.code)
    releases : env.type ≡ "key" → env.action ≡ "up" → Names env (key_up env.code)
    clicks : env.type ≡ "pointer_button" → env.action ≡ "down" → Names env (button_down env.button)
    lets_go : env.type ≡ "pointer_button" → env.action ≡ "up" → Names env (button_up env.button)
    scrolls : env.type ≡ "pointer_scroll" → Names env (scroll (narrow (trunc scale env.dy)))

  module _ (env : Envelope) (s : Remote) where
    -- how far the pointer is to go, with what was kept back
    abbrev pub far_x : ℤ
    far_x = round (s.accum_x +ℤ env.dx)

    abbrev pub far_y : ℤ
    far_y = round (s.accum_y +ℤ env.dy)

    -- the call that a message asks for
    abbrev pub Asks : Call → Type 0
    Asks c =
        Names env c
        ⊎ ((env.type ≡ "pointer_move")
            × ((is_zero (trunc scale far_x) && is_zero (trunc scale far_y)) ≡ false)
            × (c ≡ mouse_move (narrow (trunc scale far_x)) (narrow (trunc scale far_y))))

    abbrev pub IsReported : Remote → Type 0
    IsReported t = t.controller ≡ enqueue (error "dispatch_failed") s.controller

    -- The one call that the message asks for was made, and its failure, if it failed, is reported.
    abbrev pub Called : Remote → Type 0
    Called t =
        (c : Call) × Asks c
        × (t.calls ≡ c ∷ s.calls)
        × (((answers c ≡ none) × (t.controller ≡ s.controller))
            ⊎ ((e : InjectError) × (answers c ≡ some e) × IsReported t))

    -- The pointer is to move by less than a pixel: nothing is asked, and the fractions are kept.
    abbrev pub Kept : Remote → Type 0
    Kept t =
        (env.type ≡ "pointer_move")
        × ((is_zero (trunc scale far_x) && is_zero (trunc scale far_y)) ≡ true)
        × (t ≡ record s { accum_x = far_x; accum_y = far_y })

    abbrev pub DispatchEnds : Remote → Type 0
    DispatchEnds t =
        Called t
        ⊎ (Kept t ⊎ ((HasNoAction env ⊎ HasNoType env) × (t.calls ≡ s.calls) × IsReported t))

    -- what a call comes to, on a remote whose remainders may have changed
    called :
        (x y : ℤ) (c : Call) (o : Option InjectError)
        → Asks c
        → answers c ≡ o
        → Called (
            report scale round narrow answers o
              (record s { accum_x = x; accum_y = y; calls = c ∷ s.calls }))
    called x y c none a h = (c, a, refl, inl (h, refl))
    called x y c (some e) a h = (c, a, refl, inr (e, h, refl))

    moved :
        env.type ≡ "pointer_move" → DispatchEnds (move_by scale round narrow answers far_x far_y s)
    moved m =
        if_lem DispatchEnds (is_zero (trunc scale far_x) && is_zero (trunc scale far_y)) _ _
          (λ rests. inr (inl (m, rests, refl)))
          (λ goes. inl (
            called _ _ (mouse_move (narrow (trunc scale far_x)) (narrow (trunc scale far_y))) _
              (inr (m, goes, refl)) refl))

  -- what an action stands for
  abbrev Means : Envelope → Action → Type 0
  Means env (calls_injector c) = Names env c
  Means env moves_pointer = env.type ≡ "pointer_move"
  Means env unknown_action = HasNoAction env
  Means env unknown_type = HasNoType env

  up_or_down-Means :
      (env : Envelope) (down up : Call)
      → (env.type ≡ "key") ⊎ (env.type ≡ "pointer_button")
      → (env.action ≡ "down" → Names env down)
      → (env.action ≡ "up" → Names env up)
      → Means env (up_or_down down up env.action)
  up_or_down-Means env down up h d u =
      if_lem (Means env) (env.action == "down") _ _ (λ e. d (eq_of_test env.action "down" e))
        (λ not_down.
          if_lem (Means env) (env.action == "up") _ _ (λ e. u (eq_of_test env.action "up" e))
            (λ not_up.
              (h, ne_of_test env.action "down" not_down, ne_of_test env.action "up" not_up)))

  action_of-Means : (env : Envelope) → Means env (action_of scale round narrow env)
  unfolding action_of
  action_of-Means env =
      if_lem (Means env) (env.type == "key") _ _
        (λ k.
          let is = eq_of_test env.type "key" k in
          up_or_down-Means env (key_down env.code) (key_up env.code) (inl is) (presses is)
            (releases is))
        (λ k.
          if_lem (Means env) (env.type == "pointer_move") _ _ (eq_of_test env.type "pointer_move")
            (λ m.
              if_lem (Means env) (env.type == "pointer_button") _ _
                (λ b.
                  let is = eq_of_test env.type "pointer_button" b in
                  up_or_down-Means env (button_down env.button) (button_up env.button) (inr is)
                    (clicks is) (lets_go is))
                (λ b.
                  if_lem (Means env) (env.type == "pointer_scroll") _ _
                    (λ c. scrolls (eq_of_test env.type "pointer_scroll" c))
                    (λ c. (
                      ne_of_test env.type "key" k,
                      ne_of_test env.type "pointer_move" m,
                      ne_of_test env.type "pointer_button" b,
                      ne_of_test env.type "pointer_scroll" c,
                    )))))

  act_lem :
      (env : Envelope) (s : Remote) (a : Action)
      → Means env a
      → DispatchEnds env s (act scale round narrow answers env a s)
  act_lem env s (calls_injector c) h =
      inl (called env s s.accum_x s.accum_y c (answers c) (inl h) refl)
  act_lem env s moves_pointer h = moved env s h
  act_lem env s unknown_action h = inr (inr (inl h, refl, refl))
  act_lem env s unknown_type h = inr (inr (inr h, refl, refl))

  -- A message ends in one of three ways. The one call that it asks for was made: a key or a button with the
  -- action "down" or "up" is pressed or released, with its code or name, a scroll is by the whole pixels of
  -- dy, and a motion by the whole pixels of what was kept back and the deltas; a call that failed, and no
  -- other, is reported to the phone as dispatch_failed. Or the pointer is to move by less than a pixel on
  -- both axes, so that nothing is asked or reported, and the fractions are kept. Or its type is none of the
  -- four, or its action neither of the two, so that nothing is asked and that is reported.
  pub dispatch_lem :
      (env : Envelope) (s : Remote) → DispatchEnds env s (dispatch scale round narrow answers env s)
  unfolding dispatch
  dispatch_lem env s = act_lem env s (action_of scale round narrow env) (action_of-Means env)

-- A key that the table lacks is an error and nothing is injected; the press and the release of one that it
-- has are those of its code.
abbrev pub KeyEnds : (Op → Bool) → String → Option ℕ → Type 0
KeyEnds ok code none =
    (inject ok (key_down code) ≡ (some unknown_key_code, []))
    × (inject ok (key_up code) ≡ (some unknown_key_code, []))
KeyEnds ok code (some v) =
    ((inject ok (key_down code)).1 ≡ press_key v ∷ [])
    × ((inject ok (key_up code)).1 ≡ release_key v ∷ [])

keys_lem : (ok : Op → Bool) (code : String) → KeyEnds ok code (translate_key_code code)
unfolding inject
keys_lem ok code = by_code (translate_key_code code) refl
  where
    by_code : (o : Option ℕ) → translate_key_code code ≡ o → KeyEnds ok code o
    by_code none h = (ap (with_code ok press_key) h, ap (with_code ok release_key) h)
    by_code (some v) h =
        (ap (λ o. (with_code ok press_key o).1) h, ap (λ o. (with_code ok release_key o).1) h)
