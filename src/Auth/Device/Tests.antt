-- ===== src/Auth/Device/Tests.antt =====
-- Validation of device keys at a concrete store.
use a6_core.Prelude.{String, ◌≡◌, refl, ◌⊎◌, true, false, none, some, List, [], ◌∷◌, All}
use a6_core.Samples.{hash, phone, two_devices, store_of, calm, request}
use a6_core.Http.{malformed}
use a6_core.Auth.Device.{validate_device_key, extract_device_key}

header_wins : extract_device_key (request "Bearer k2" "" malformed) ≡ "k2"
unfolding extract_device_key a6_core.Prelude.cut_prefix
header_wins = refl

knows_phone : (validate_device_key hash "k2" 100 101 calm (store_of two_devices)).0 ≡ some phone
unfolding validate_device_key
knows_phone = refl
