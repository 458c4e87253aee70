-- ===== src/State/Migrate.antt =====
-- internal/state/state.go, `readStateFile`: the migrations that are applied to a decoded state.
pub mod Promotion
pub mod Laws
mod Tests
use a6_core.Prelude.{
  ℕ, zero, suc, ◌+◌, String, Bool, true, List, [], ◌∷◌, map, ltb, ◌==◌, any, if◌then◌else◌,
}
use a6_core.State.Types.{Device, State, default_mode, device_type_phone}

-- `if st.Mode == "" { st.Mode = defaultMode }`
abbrev pub mode_or_default : String → String
mode_or_default mode = if mode == "" then default_mode else mode

-- the body of the loop over `st.Devices`
abbrev pub with_type : Device → Device
with_type d = if d.device_type == "" then record d { device_type = device_type_phone } else d

abbrev pub primary : Device → Bool
primary d = d.is_primary

abbrev pub has_primary : List Device → Bool
has_primary devices = any primary devices

-- the loop that looks for the device that was paired first: `i` runs, `best` is its `earliest`,
-- and `at` is the pairing time of `best`
earliest : ℕ → ℕ → ℕ → List Device → ℕ
earliest i best at [] = best
earliest i best at (d ∷ ds) =
    let sooner = ltb d.paired_at at in
    earliest (i + 1) (if sooner then i else best) (if sooner then d.paired_at else at) ds

-- `st.Devices[i].IsPrimary = true`
abbrev pub set_primary : ℕ → List Device → List Device
set_primary i [] = []
set_primary zero (d ∷ ds) = record d { is_primary = true } ∷ ds
set_primary (suc i) (d ∷ ds) = d ∷ set_primary i ds

unfoldable pub ensure_primary : List Device → List Device
unfolding earliest
ensure_primary [] = []
ensure_primary (d ∷ ds) =
    if has_primary (d ∷ ds)
    then d ∷ ds
    else set_primary (earliest 0 0 d.paired_at (d ∷ ds)) (d ∷ ds)

unfoldable pub migrate : State → State
migrate st = record st {
  mode = mode_or_default st.mode;
  devices = ensure_primary (map with_type st.devices);
}
