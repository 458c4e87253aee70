-- ===== src/Auth/Device.antt =====
-- internal/auth/keys.go, and `ValidateDeviceKey` and `ExtractDeviceKey` of internal/auth/middleware.go.
-- `hash` stands for SHA-256 in hexadecimal.
pub mod Laws
mod Tests
use a6_core.Prelude.{
  ℕ, ◌+◌, ◌*◌, String, Bool, true, false, Option, none, some, List, [], ◌∷◌, map, ltb, ◌==◌, find,
  cut_prefix, if◌then◌else◌,
}
use a6_core.State.Types.{Device, State}
use a6_core.State.Disk.Calls.{Faults}
use a6_core.State.Store.{Store, Outcome, commit, update, snapshot}
use a6_core.Http.{Request}

abbrev pub last_seen_throttle : ℕ
last_seen_throttle = 60 * 1000000000

-- `st.Devices[i].LastSeen = time.Now()` in the loop over the devices with the matched id
abbrev pub touched : String → ℕ → Device → Device
touched id stamp d = if d.id == id then record d { last_seen = stamp } else d

touch : String → ℕ → State → Outcome Unit Unit
touch id stamp st = commit tt (record st { devices = map (touched id stamp) st.devices })

-- the throttled update, whose failure is only logged
unfoldable pub touch_last_seen : Device → ℕ → ℕ → Faults → Store → Store
unfolding touch
touch_last_seen d now stamp faults s =
    if ltb (d.last_seen + last_seen_throttle) now then (update (touch d.id stamp) faults s).1 else s

module _ (hash : String → String) where
  -- `KeysMatch`
  abbrev keys_match : String → String → Bool
  keys_match key stored = hash key == stored

  abbrev pub matches : String → Device → Bool
  matches key d = keys_match key d.key_hash

  abbrev pub validated : ℕ → ℕ → Faults → Store → Option Device → Option Device × Store
  validated now stamp faults s none = (none, s)
  validated now stamp faults s (some d) = (some d, touch_last_seen d now stamp faults s)

  -- `ValidateDeviceKey`
  unfoldable pub validate_device_key : String → ℕ → ℕ → Faults → Store → Option Device × Store
  unfolding snapshot
  validate_device_key key now stamp faults s =
      validated now stamp faults s (find (matches key) (snapshot s).devices)

abbrev header_or_query : Option String → String → String
header_or_query (some key) query = key
header_or_query none query = query

-- `ExtractDeviceKey`
unfoldable pub extract_device_key : Request → String
extract_device_key r = header_or_query (cut_prefix "Bearer " r.authorization) r.query_token
