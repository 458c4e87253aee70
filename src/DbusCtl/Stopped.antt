-- ===== src/DbusCtl/Stopped.antt =====
-- When the game server counts as stopped, and what its status is at start.
use a6_core.Prelude.{
  String, Bool, true, false, ◌≡◌, refl, ap, ◌∙◌, ◌==◌, ◌||◌, ◌⊎◌, inl, inr, eq_of_test, Bool-cases,
}
use a6_core.DbusCtl.{
  Call, get_unit, active_state, Reply, refused, other, text, Outcome, done, unit_active_state,
  state_at, property_of, bedrock_is_stopped, reads_stopped,
}
use a6_core.DbusCtl.Allowed.{bedrock}

-- systemd knows the unit, and its state is one of a unit that is down
abbrev pub IsDown : (Call → Reply) → Type 0
IsDown bus =
    (path : String) × (bus (get_unit bedrock) ≡ text path)
    × ((bus (active_state path) ≡ text "inactive") ⊎ (bus (active_state path) ≡ text "failed"))

abbrev pub Unknown : (Call → Reply) → Type 0
Unknown bus = bus (get_unit bedrock) ≡ refused

abbrev IsFinal : (Call → Reply) → Outcome String → Type 0
IsFinal bus o = reads_stopped bus o ≡ done true

other_test : (a b : Bool) → (a || b) ≡ true → a ≡ false → b ≡ true
other_test true b h e = absurd (cc e)
other_test false b h e = h

module _ (bus : Call → Reply) where
  down_state :
      (s : String) → (s == "inactive" || s == "failed") ≡ true → (s ≡ "inactive") ⊎ (s ≡ "failed")
  down_state s h = elim (Bool-cases (s == "inactive")) [
    | inl e ↦ inl (eq_of_test s "inactive" e)
    | inr e ↦ inr (eq_of_test s "failed" (other_test (s == "inactive") (s == "failed") h e))
  ]

  down_property :
      (path : String) (reply : Reply)
      → bus (active_state path) ≡ reply
      → IsFinal bus (property_of reply)
      → (bus (active_state path) ≡ text "inactive") ⊎ (bus (active_state path) ≡ text "failed")
  down_property path refused h e = absurd (cc e)
  down_property path other h e = absurd (cc e)
  down_property path (text s) h e = elim (down_state s (cc e)) [
    | inl i ↦ inl (h ∙ ap text i)
    | inr f ↦ inr (h ∙ ap text f)
  ]

  confirmed :
      (reply : Reply)
      → bus (get_unit bedrock) ≡ reply
      → IsFinal bus (state_at bus bedrock reply).0
      → IsDown bus ⊎ Unknown bus
  confirmed refused h e = inr h
  confirmed other h e = absurd (cc e)
  confirmed (text path) h e = inl (path, h, down_property path (bus (active_state path)) refl e)

  down_confirms : IsDown bus → bedrock_is_stopped bus ≡ done true
  unfolding bedrock_is_stopped unit_active_state
  down_confirms (path, found, inl state) = rw (found, state) refl
  down_confirms (path, found, inr state) = rw (found, state) refl

  refusal_confirms : Unknown bus → bedrock_is_stopped bus ≡ done true
  unfolding bedrock_is_stopped unit_active_state
  refusal_confirms refuses = rw refuses refl

  -- The game server counts as stopped just when systemd answers that its unit is inactive or has
  -- failed, or when the call for the unit is refused. A call that is not answered in time is
  -- refused too, so that a bus that hangs confirms a stop whatever the unit does.
  pub bedrock_is_stopped_lem :
      (bedrock_is_stopped bus ≡ done true → IsDown bus ⊎ Unknown bus)
      × (IsDown bus ⊎ Unknown bus → bedrock_is_stopped bus ≡ done true)
  unfolding bedrock_is_stopped unit_active_state
  bedrock_is_stopped_lem = (confirmed (bus (get_unit bedrock)) refl, back)
    where
      back : IsDown bus ⊎ Unknown bus → bedrock_is_stopped bus ≡ done true
      back (inl down) = down_confirms down
      back (inr unknown) = refusal_confirms unknown
