-- ===== src/Server/CloudAccounts.antt =====
-- internal/server/cloud_handlers.go: the handlers of accounts and sessions, over the store that the
-- cloud shares with the rest.
pub mod Lifecycle
mod Tests
use a6_core.Prelude.{String, Option, none, some}
use a6_core.State.Types.{CloudUser}
use a6_core.State.Store.{Store}
use a6_core.Cloud.Accounts.{
  Crypto, CloudError, username_taken, Returned, returned, failed, Draw, register, login, logout,
}
use a6_core.Auth.Device.{extract_device_key}
use a6_core.Http.{
  Body, malformed, account_request, Request, Response, account, cloud_session, json_error, plain,
  Context, Env, Handler,
}

-- `json.Decode` into a `registerRequest` or a `loginRequest`
abbrev pub decode_account : Body → Option (String × String)
decode_account malformed = none
decode_account (account_request username password) = some (username, password)
decode_account _ = some ("", "")

abbrev pub draw_of : Env → Draw
draw_of env = record { id = env.new_id; token = env.new_token; now = env.now }

abbrev answer_register : Returned CloudUser × Store → Response × Store
answer_register (returned u, t) = (record { status = 200; answer = account u.id u.username }, t)
answer_register (failed username_taken, t) = (json_error 409 "username_taken", t)
answer_register (failed _, t) = (json_error 400 "register_failed", t)

abbrev pub answer_login : Returned (String × CloudUser) × Store → Response × Store
answer_login (returned (token, u), t) =
    (record { status = 200; answer = cloud_session token u.id u.username }, t)
answer_login (failed e, t) = (json_error 401 "invalid_credentials", t)

abbrev pub answer_logout : Returned Unit × Store → Response × Store
answer_logout (returned x, t) = (plain 204, t)
answer_logout (failed e, t) = (json_error 500 "logout_failed", t)

module _ (c : Crypto) where
  abbrev register_decoded : Env → Option (String × String) → Store → Response × Store
  register_decoded env none s = (json_error 400 "invalid_body", s)
  register_decoded env (some (username, password)) s =
      answer_register (register c (draw_of env) env.faults username password s)

  -- `handleRegister`
  unfoldable handle_register : Handler Store
  handle_register env ctx r s = register_decoded env (decode_account r.body) s

  abbrev pub login_decoded : Env → Option (String × String) → Store → Response × Store
  login_decoded env none s = (json_error 400 "invalid_body", s)
  login_decoded env (some (username, password)) s =
      answer_login (login c (draw_of env) env.faults username password s)

  -- `handleLogin`
  unfoldable pub handle_login : Handler Store
  handle_login env ctx r s = login_decoded env (decode_account r.body) s

  -- `handleLogout`
  unfoldable pub handle_logout : Handler Store
  handle_logout env ctx r s = answer_logout (logout c env.faults (extract_device_key r) s)

abbrev pub answer_me : Option CloudUser → Response
answer_me none = json_error 500 "no_user_context"
answer_me (some u) = record { status = 200; answer = account u.id u.username }

-- `handleMe`
unfoldable pub handle_me : Handler Store
handle_me env ctx r s = (answer_me ctx.cloud_user, s)
