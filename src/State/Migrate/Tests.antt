-- ===== src/State/Migrate/Tests.antt =====
-- Tests of the migrations.
use a6_core.Prelude.{◌≡◌, refl, false, [], ◌∷◌}
use a6_core.Samples.{shell, phone, empty_state}
use a6_core.State.Types.{Device}
use a6_core.State.Migrate.{ensure_primary, migrate}

abbrev old_phone : Device
old_phone = record phone { device_type = "" }

-- a state file of an old version: no mode, no device types, no primary device
migrates :
    (migrate (record empty_state {
      mode = "";
      devices = old_phone ∷ record shell { is_primary = false } ∷ [];
    })).devices
    ≡ phone ∷ shell ∷ []
unfolding migrate ensure_primary
migrates = refl
