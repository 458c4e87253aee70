-- ===== src/State/Migrate/Laws.antt =====
-- What the migrations of `readStateFile` guarantee, whatever the file held.
use a6_core.Prelude.{
  ℕ, zero, suc, String, ◌≡◌, refl, ap, ◌⊎◌, inl, inr, true, false, List, [], ◌∷◌, map, ◌==◌, All,
  Bool-cases,
}
use a6_core.State.Types.{Device, State}
use a6_core.State.Migrate.{
  mode_or_default, with_type, has_primary, earliest, set_primary, ensure_primary, migrate,
}
use a6_core.State.Migrate.Promotion.{ensure_primary_has}

-- What the rest of the program relies on: a mode, a type on each device, and a primary device
-- as soon as there is a device.
pub record IsUsable (st : State) : Type 0 where
  pub mode : (st.mode == "") ≡ false
  pub typed : All (λ (d : Device). (d.device_type == "") ≡ false) st.devices
  pub led : (st.devices ≡ []) ⊎ (has_primary st.devices ≡ true)

abbrev Typed : List Device → Type 0
Typed = All (λ (d : Device). (d.device_type == "") ≡ false)

Typed-set_primary : (i : ℕ) (ds : List Device) → Typed ds → Typed (set_primary i ds)
Typed-set_primary i [] h = h
Typed-set_primary zero (d ∷ ds) h = h
Typed-set_primary (suc i) (d ∷ ds) h = (h.0, Typed-set_primary i ds h.1)

with_type_typed : (d : Device) → ((with_type d).device_type == "") ≡ false
with_type_typed d = elim (Bool-cases (d.device_type == "")) [ inl e ↦ rw e | inr e ↦ rw e e ]

mode_or_default_set : (mode : String) → (mode_or_default mode == "") ≡ false
mode_or_default_set mode = elim (Bool-cases (mode == "")) [ inl e ↦ rw e | inr e ↦ rw e e ]

Typed-map : (ds : List Device) → Typed (map with_type ds)
Typed-map [] = tt
Typed-map (d ∷ ds) = (with_type_typed d, Typed-map ds)

Typed-ensure_primary : (ds : List Device) → Typed ds → Typed (ensure_primary ds)
unfolding ensure_primary
Typed-ensure_primary [] h = h
Typed-ensure_primary (d ∷ ds) h = elim (Bool-cases (has_primary (d ∷ ds))) [
  | inl e ↦ rw e h
  | inr e ↦ rw e (Typed-set_primary (earliest 0 0 d.paired_at (d ∷ ds)) (d ∷ ds) h)
]

-- Whatever a state file decodes to, the migrated state has a mode, a type on each device, and a
-- primary device unless it has no device at all.
pub migrate-IsUsable : (st : State) → IsUsable (migrate st)
unfolding migrate
migrate-IsUsable st = record {
  mode = mode_or_default_set st.mode;
  typed = Typed-ensure_primary (map with_type st.devices) (Typed-map st.devices);
  led = ensure_primary_has (map with_type st.devices);
}

map-with_type : (ds : List Device) → Typed ds → map with_type ds ≡ ds
map-with_type [] h = refl
map-with_type (d ∷ ds) h = rw (h.0) (ap (λ rest. d ∷ rest) (map-with_type ds h.1))

ensure_primary_id :
    (ds : List Device) → (ds ≡ []) ⊎ (has_primary ds ≡ true) → ensure_primary ds ≡ ds
unfolding ensure_primary
ensure_primary_id [] h = refl
ensure_primary_id (d ∷ ds) (inl e) = absurd (cc)
ensure_primary_id (d ∷ ds) (inr e) = rw e

-- A state that is already usable is loaded back exactly as it was saved.
pub migrate_usable : (st : State) → IsUsable st → migrate st ≡ st
unfolding migrate
migrate_usable st u = λ i. record st {
  mode = (let e : mode_or_default st.mode ≡ st.mode = rw u.mode in e) i;
  devices =
      (let e : ensure_primary (map with_type st.devices) ≡ st.devices =
            rw (map-with_type st.devices u.typed) (ensure_primary_id st.devices u.led) in
          e)
        i;
}
