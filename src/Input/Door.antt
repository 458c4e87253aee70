-- ===== src/Input/Door.antt =====
-- internal/input/input.go: `Handler`, up to the loops, when no other goroutine
-- comes in between: whose connection takes control of the devices.
use a6_core.Prelude.{ℕ, String, Bool, true, false, Option, none, some, ◌≡◌, ◌⊎◌, inl, inr, refl}
use a6_core.State.Types.{Device}
use a6_core.Http.{Request}
use a6_core.Auth.Device.{extract_device_key}
use a6_core.Input.Control.{Manager, connects, run}

pub data Accepted : Type 0 where
  unauthorized not_upgraded in_control : Accepted

module _ {M : Type 0} (inject : M → Option String) where
  abbrev admit : ℕ → Bool → Option Device → Manager M → Accepted × Manager M
  admit id upgrades none s = (unauthorized, s)
  admit id false (some d) s = (not_upgraded, s)
  admit id true (some d) s = (in_control, run M inject (connects M id d.name s.current) s)

  -- `validate` is the validator of keys, and `id` names the new connection
  unfoldable pub handle_input :
      (String → Option Device) → ℕ → Bool → Request → Manager M → Accepted × Manager M
  unfolding extract_device_key
  handle_input validate id upgrades r s = admit id upgrades (validate (extract_device_key r)) s

  -- Only a request with a key that the validator knows, on a connection that is upgraded, makes a
  -- connection, and it carries the name of that key's device. Any other leaves everybody in control who was.
  pub handle_input_lem :
      (validate : String → Option Device) (id : ℕ) (upgrades : Bool) (r : Request) (s : Manager M)
      → ((handle_input validate id upgrades r s).1 ≡ s)
        ⊎ ((d : Device) × (validate (extract_device_key r) ≡ some d)
            × ((handle_input validate id upgrades r s).1
                ≡ run M inject (connects M id d.name s.current) s))
  unfolding handle_input extract_device_key
  handle_input_lem validate id upgrades r s = by_key upgrades (validate (extract_device_key r)) refl
    where
      by_key :
          (upgrades : Bool) (o : Option Device)
          → validate (extract_device_key r) ≡ o
          → ((admit id upgrades o s).1 ≡ s)
            ⊎ ((d : Device) × (validate (extract_device_key r) ≡ some d)
                × ((admit id upgrades o s).1 ≡ run M inject (connects M id d.name s.current) s))
      by_key upgrades none e = inl refl
      by_key false (some d) e = inl refl
      by_key true (some d) e = inr (d, e, refl)
