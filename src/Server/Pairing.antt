-- ===== src/Server/Pairing.antt =====
-- internal/server/pairing_handlers.go. `hash` stands for SHA-256 in hexadecimal. The clock answers
-- `now` until a device is made, and `stamp` then.
pub mod Outcomes
pub mod Roundtrip
mod Tests
use a6_core.Prelude.{
  ℕ, String, Bool, true, false, Option, none, some, List, [], ◌∷◌, ◌++◌, ◌==◌, if◌then◌else◌,
}
use a6_core.State.Types.{Device, State, device_type_phone, device_type_shell}
use a6_core.State.Store.{Store, Outcome, commit, Updated, done, refused, unsaved, update}
use a6_core.Auth.RateLimit.{allow}
use a6_core.Auth.Pairing.{generate, redeem, PairingManager}
use a6_core.Auth.Middleware.{is_local_request}
use a6_core.Http.{
  Body, malformed, pair_request, Request, Response, Answer, token, paired, json_error, Env, Context,
  Handler,
}
use a6_core.Events.{Event}
use a6_core.Server.App.{App, publish}

abbrev answer_generated : Option (String × ℕ) → Response
answer_generated none = json_error 500 "pairing_generate_failed"
answer_generated (some (t, expires_at)) = record { status = 200; answer = token t expires_at }

-- `handlePairGenerate`
unfoldable handle_pair_generate : Handler App
handle_pair_generate env ctx r s =
    let (made, pairing') = generate env.now env.new_token s.pairing in
    (answer_generated made, record s { pairing = pairing' })

-- `json.NewDecoder(r.Body).Decode(&req)`: a body with other fields leaves these empty
abbrev pub decode_pair : Body → Option (String × String)
decode_pair malformed = none
decode_pair (pair_request t name) = some (t, name)
decode_pair _ = some ("", "")

-- `deviceTypeForRequest`
abbrev device_type_for : Request → String
device_type_for r = if is_local_request r then device_type_shell else device_type_phone

abbrev default_name : String → String
default_name name = if name == "" then "Unnamed device" else name

abbrev pub is_first : List Device → Bool
is_first [] = true
is_first (d ∷ ds) = false

-- the function given to `Update`; it captures the name of the core
unfoldable pub add_device : Device → State → Outcome Unit String
add_device d st =
    let d' = if is_first st.devices then record d { is_primary = true } else d in
    commit st.core_name (record st { devices = st.devices ++ d' ∷ [] })

module _ (hash : String → String) where
  unfoldable pub new_device : Env → Request → String → String → Device
  new_device env r name key = record {
    id = env.new_id;
    name = default_name name;
    key_hash = hash key;
    paired_at = env.stamp;
    last_seen = env.stamp;
    device_type = device_type_for r;
    is_primary = false;
  }

  abbrev pub answer_paired : Device → String → App → Updated Unit String × Store → Response × App
  answer_paired d key s (done core_name, t) = (
    record { status = 200; answer = paired d.id key core_name },
    publish
        (record {
          event = "device.paired";
          fields = ("device_id", d.id) ∷ ("device_name", d.name) ∷ [];
        })
        (record s { store = t }),
  )
  answer_paired d key s (_, t) = (json_error 500 "save_failed", record s { store = t })

  abbrev pub pair_with_key : Env → Request → String → App → Option String → Response × App
  pair_with_key env r name s none = (json_error 500 "key_generation_failed", s)
  pair_with_key env r name s (some key) =
      let d = new_device env r name key in
      answer_paired d key s (update (add_device d) env.faults s.store)

  abbrev pub pair_redeemed : Env → Request → String → App → Bool × PairingManager → Response × App
  pair_redeemed env r name s (false, p) = (json_error 401 "invalid_token", record s { pairing = p })
  pair_redeemed env r name s (true, p) =
      pair_with_key env r name (record s { pairing = p }) env.new_key

  abbrev pub pair_decoded : Env → Request → App → Option (String × String) → Response × App
  pair_decoded env r s none = (json_error 400 "invalid_body", s)
  pair_decoded env r s (some (t, name)) =
      if t == ""
      then (json_error 400 "missing_token", s)
      else pair_redeemed env r name s (redeem env.now t s.pairing)

  -- `handlePair`
  unfoldable pub handle_pair : Handler App
  handle_pair env ctx r s =
      let (ok, limiter) = allow env.now r.host s.rate_limit in
      let s' = record s { rate_limit = limiter } in
      if ok then pair_decoded env r s' (decode_pair r.body) else (json_error 429 "rate_limited", s')
