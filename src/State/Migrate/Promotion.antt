-- ===== src/State/Migrate/Promotion.antt =====
-- Which device `readStateFile` makes primary when none is.
use a6_core.Prelude.{
  ℕ, zero, suc, ◌+◌, ◌≤◌, ◌<◌, ◌≡◌, refl, ap, ◌⊎◌, inl, inr, true, false, some, List, [], ◌∷◌,
  arith, ltb, Bool-cases, get_elem?, length, ◌∙◌,
}
use a6_core.State.Types.{Device}
use a6_core.State.Migrate.{has_primary, earliest, set_primary, ensure_primary}

-- `r` is the index that the loop ends with: the one that it began with, if nothing in the list was
-- paired before `at`, or the first of those that were paired soonest.
record Soonest (i at : ℕ) (ds : List Device) (r : ℕ) : Type 0 where
  pub index : ℕ
  pub device : Device
  pub is_index : r ≡ i + index
  pub is_device : get_elem? ds index ≡ some device
  pub sooner : device.paired_at < at
  pub least : (j : ℕ) (x : Device) → get_elem? ds j ≡ some x → device.paired_at ≤ x.paired_at
  pub first :
      (j : ℕ) (x : Device) → j < index → get_elem? ds j ≡ some x → device.paired_at < x.paired_at

abbrev NoSooner : ℕ → List Device → Type 0
NoSooner at ds = (j : ℕ) (x : Device) → get_elem? ds j ≡ some x → at ≤ x.paired_at

NoSooner-cons :
    (at : ℕ) (d : Device) (ds : List Device)
    → at ≤ d.paired_at
    → NoSooner at ds
    → NoSooner at (d ∷ ds)
NoSooner-cons at d ds h k zero x e = ground arith
NoSooner-cons at d ds h k (suc j) x e = k j x e

Soonest-head :
    (i at : ℕ) (d : Device) (ds : List Device)
    → d.paired_at < at
    → NoSooner d.paired_at ds
    → Soonest i at (d ∷ ds) i
Soonest-head i at d ds h k = record {
  index = 0;
  device = d;
  is_index = omega arith;
  is_device = refl;
  sooner = h;
  least = NoSooner-cons d.paired_at d ds (omega arith) k;
  first = λ j x lt e. absurd (omega arith);
}

Soonest-tail :
    (i at at' : ℕ) (d : Device) (ds : List Device) (r : ℕ)
    → at' ≤ at
    → at' ≤ d.paired_at
    → Soonest (i + 1) at' ds r
    → Soonest i at (d ∷ ds) r
Soonest-tail i at at' d ds r h k s = record {
  index = suc s.index;
  device = s.device;
  is_index = omega arith;
  is_device = s.is_device;
  sooner = omega arith;
  least = elim [ zero ↦ λ x e. ground arith | suc j ↦ λ x e. s.least j x e ];
  first = elim [ zero ↦ λ x lt e. ground arith | suc j ↦ λ x lt e. s.first j x (omega arith) e ];
}

earliest_lem :
    (i best at : ℕ) (ds : List Device)
    → ((earliest i best at ds ≡ best) × NoSooner at ds) ⊎ Soonest i at ds (earliest i best at ds)
unfolding earliest
earliest_lem i best at [] = inl (refl, λ j x e. absurd (cc))
earliest_lem i best at (d ∷ ds) = elim (Bool-cases (ltb d.paired_at at)) [
  | inl yes_sooner ↦
      rw (yes_sooner, earliest)
        (elim (earliest_lem (i + 1) i d.paired_at ds) [
          | inl (e, k) ↦ inr (rw e (Soonest-head i at d ds (ground arith) k))
          | inr s ↦ inr (Soonest-tail i at d.paired_at d ds _ (ground arith) (omega arith) s)
        ])
  | inr not_sooner ↦
      rw (not_sooner, earliest)
        (elim (earliest_lem (i + 1) best at ds) [
          | inl (e, k) ↦ inl (e, NoSooner-cons at d ds (ground arith) k)
          | inr s ↦ inr (Soonest-tail i at at d ds _ (omega arith) (ground arith) s)
        ])
]

any-set_primary : (i : ℕ) (ds : List Device) → i < length ds → has_primary (set_primary i ds) ≡ true
any-set_primary i [] h = elim h [ ]
any-set_primary zero (d ∷ ds) h = refl
any-set_primary (suc i) (d ∷ ds) h = ground (arith, any-set_primary i ds (omega arith))

lt_of_get_elem? : (ds : List Device) (i : ℕ) {d : Device} → get_elem? ds i ≡ some d → i < length ds
lt_of_get_elem? [] i h = absurd (cc)
lt_of_get_elem? (x ∷ ds) zero h = omega arith
lt_of_get_elem? (x ∷ ds) (suc i) h = omega (arith, lt_of_get_elem? ds i h)

-- What `ensure_primary` does to a list in which nobody is primary.
pub record Promotes (ds out : List Device) : Type 0 where
  pub index : ℕ
  pub device : Device
  pub is_device : get_elem? ds index ≡ some device
  pub promoted : out ≡ set_primary index ds
  pub least : (j : ℕ) (x : Device) → get_elem? ds j ≡ some x → device.paired_at ≤ x.paired_at
  pub first :
      (j : ℕ) (x : Device) → j < index → get_elem? ds j ≡ some x → device.paired_at < x.paired_at

Promotes-of_earliest :
    (d : Device) (ds : List Device)
    → Promotes (d ∷ ds) (set_primary (earliest 0 0 d.paired_at (d ∷ ds)) (d ∷ ds))
Promotes-of_earliest d ds = elim (earliest_lem 0 0 d.paired_at (d ∷ ds)) [
  | inl (e, k) ↦ record {
    index = 0;
    device = d;
    is_device = refl;
    promoted = rw e;
    least = k;
    first = λ j x lt _. absurd (omega arith);
  }
  | inr s ↦ record {
    index = s.index;
    device = s.device;
    is_device = s.is_device;
    promoted = ap (λ i. set_primary i (d ∷ ds)) (s.is_index ∙ (omega arith));
    least = s.least;
    first = s.first;
  }
]

-- Among devices of which none is primary, loading promotes exactly one and changes nothing else:
-- a device with the earliest pairing time, and the first such in the list.
pub ensure_primary-Promotes :
    (d : Device) (ds : List Device)
    → has_primary (d ∷ ds) ≡ false
    → Promotes (d ∷ ds) (ensure_primary (d ∷ ds))
unfolding ensure_primary
ensure_primary-Promotes d ds h = rw h (Promotes-of_earliest d ds)

pub ensure_primary_has :
    (ds : List Device) → (ensure_primary ds ≡ []) ⊎ (has_primary (ensure_primary ds) ≡ true)
ensure_primary_has [] = unfold ensure_primary in inl refl
ensure_primary_has (d ∷ ds) = elim (Bool-cases (has_primary (d ∷ ds))) [
  | inl e ↦ inr (unfold ensure_primary in rw (e, ensure_primary) e)
  | inr e ↦
      let p = ensure_primary-Promotes d ds e in
      inr (
        rw p.promoted
          (any-set_primary p.index (d ∷ ds) (lt_of_get_elem? (d ∷ ds) p.index p.is_device)))
]
