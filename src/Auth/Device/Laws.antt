-- ===== src/Auth/Device/Laws.antt =====
-- What validating a device key answers, and what it leaves alone.
use a6_core.Prelude.{
  ℕ, String, ◌≡◌, refl, ◌⊎◌, inl, inr, Bool, true, false, none, some, List, [], ◌∷◌, map, ltb, ◌==◌,
  find, Bool-cases, ap, sym, ◌∙◌, subst, All, ◌++◌, ◌+◌,
}
use mathlib.Core.Bool.{false≢true}
use a6_core.State.Types.{Device, State}
use a6_core.State.Disk.Calls.{Faults}
use a6_core.State.Store.{Store, commit}
use a6_core.State.Store.Atomicity.{update-keeps}
use a6_core.Auth.Device.{
  touched, touch, touch_last_seen, last_seen_throttle, matches, validated, validate_device_key,
}

-- A device without its time of last use.
abbrev unseen : Device → Device
unseen d = record d { last_seen = 0 }

-- Two states that differ at most in the times of last use.
pub record SameButSeen (st st' : State) : Type 0 where
  pub devices : map unseen st'.devices ≡ map unseen st.devices
  pub rest : record st' { devices = [] } ≡ record st { devices = [] }

SameButSeen-refl : (st : State) → SameButSeen st st
SameButSeen-refl st = record { devices = refl; rest = refl }

unseen-touched : (id : String) (stamp : ℕ) (d : Device) → unseen (touched id stamp d) ≡ unseen d
unseen-touched id stamp d = elim (Bool-cases (d.id == id)) [ inl e ↦ rw e | inr e ↦ rw e ]

unseen-map :
    (id : String) (stamp : ℕ) (ds : List Device)
    → map unseen (map (touched id stamp) ds) ≡ map unseen ds
unseen-map id stamp [] = refl
unseen-map id stamp (d ∷ ds) = λ i. unseen-touched id stamp d i ∷ unseen-map id stamp ds i

touch-SameButSeen :
    (id : String) (stamp : ℕ) (st st' : State) (a : Unit)
    → touch id stamp st ≡ commit a st'
    → SameButSeen st st'
unfolding touch
touch-SameButSeen id stamp st st' a e =
    let e' : record st { devices = map (touched id stamp) st.devices } ≡ st' = cc in
    subst (SameButSeen st) e' (record { devices = unseen-map id stamp st.devices; rest = refl })

touch_last_seen-SameButSeen :
    (d : Device) (now stamp : ℕ) (faults : Faults) (s : Store)
    → SameButSeen s.state (touch_last_seen d now stamp faults s).state
unfolding touch_last_seen
touch_last_seen-SameButSeen d now stamp faults s =
    elim (Bool-cases (ltb (d.last_seen + last_seen_throttle) now)) [
      | inr e ↦ rw e (SameButSeen-refl s.state)
      | inl e ↦ rw e (
          update-keeps (SameButSeen s.state) (touch d.id stamp) faults s (SameButSeen-refl s.state)
            (λ a st' h. touch-SameButSeen d.id stamp s.state st' a h))
    ]

-- The first device of a list that passes a test.
pub record FirstWith (p : Device → Bool) (ds : List Device) (d : Device) : Type 0 where
  pub before : List Device
  pub after : List Device
  pub split : ds ≡ before ++ d ∷ after
  pub skipped : All (λ x. p x ≡ false) before
  pub passes : p d ≡ true

find_lem :
    (p : Device → Bool) (ds : List Device)
    → ((find p ds ≡ none) × All (λ x. p x ≡ false) ds)
      ⊎ ((d : Device) × (find p ds ≡ some d) × FirstWith p ds d)
find_lem p [] = inl (refl, tt)
find_lem p (x ∷ ds) = elim (Bool-cases (p x)) [
  | inl e ↦
      inr (x, rw e, record { before = []; after = ds; split = refl; skipped = tt; passes = e })
  | inr e ↦ elim (find_lem p ds) [
    | inl (n, a) ↦ inl (rw e n, (e, a))
    | inr (d, f, w) ↦ inr (
      d,
      rw e f,
      record {
        before = x ∷ w.before;
        after = w.after;
        split = ap (λ l. x ∷ l) w.split;
        skipped = (e, w.skipped);
        passes = w.passes;
      },
    )
  ]
]

none_in_split :
    (p : Device → Bool) (before after : List Device) (d : Device)
    → All (λ x. p x ≡ false) (before ++ d ∷ after)
    → p d ≡ false
none_in_split p [] after d a = a.0
none_in_split p (x ∷ before) after d a = none_in_split p before after d a.1

-- where nothing passes, there is no first that does
pub not_FirstWith :
    (p : Device → Bool) (ds : List Device) (d : Device)
    → All (λ x. p x ≡ false) ds
    → ¬ FirstWith p ds d
not_FirstWith p ds d a w =
    false≢true (
      sym (none_in_split p w.before w.after d (subst (All (λ x. p x ≡ false)) w.split a))
      ∙ w.passes)

module _ (hash : String → String) where
  -- A key that no paired device has is turned away and changes nothing. Otherwise the answer is
  -- the first device with that key's hash, as it was, and the state afterwards differs from the
  -- state before at most in times of last use.
  pub validate_device_key_lem :
      (key : String) (now stamp : ℕ) (faults : Faults) (s : Store)
      → let r = validate_device_key hash key now stamp faults s in
        ((r ≡ (none, s)) × All (λ d. matches hash key d ≡ false) s.state.devices)
        ⊎ ((d : Device) × (r.0 ≡ some d)
            × FirstWith (matches hash key) s.state.devices d
            × SameButSeen s.state r.1.state)
  unfolding validate_device_key
  validate_device_key_lem key now stamp faults s =
      elim (find_lem (matches hash key) s.state.devices) [
        | inl (n, a) ↦ inl (rw (n, validated), a)
        | inr (d, f, w) ↦ inr (
          d,
          rw (f, validated),
          w,
          rw (f, validated) (touch_last_seen-SameButSeen d now stamp faults s),
        )
      ]
