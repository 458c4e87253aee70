-- ===== src/Server/CloudAccounts/Lifecycle.antt =====
-- A session over its life: a login opens it, its token passes the gate, a logout closes it.
use a6_core.Prelude.{
  String, some, ◌≡◌, ◌≢◌, refl, sym, ap, ◌∙◌, ◌⊎◌, inl, inr, subst, any, false, cut_prefix,
}
use a6_core.State.Types.{CloudUser}
use a6_core.State.Store.{Store}
use a6_core.Cloud.Accounts.{
  Crypto, CloudError, session_invalid, Returned, returned, failed, has_hash, validate_session,
  login, logout,
}
use a6_core.Cloud.Accounts.Login.{LoginFailed, LoginEnds, login_lem}
use a6_core.Cloud.Accounts.Sessions.{LoggedOut, LogoutEnds, logout_lem}
use a6_core.Auth.Device.{extract_device_key}
use a6_core.Auth.CloudSession.{admits, refuses, session_gate}
use a6_core.Http.{
  Request, Response, account, cloud_session, json_error, plain, Context, Env, Handler,
}
use a6_core.Server.CloudAccounts.{
  decode_account, draw_of, answer_login, answer_logout, handle_login, handle_logout, handle_me,
}

abbrev pub Carries : String → Request → Type 0
Carries token r = cut_prefix "Bearer " r.authorization ≡ some token

module _ (c : Crypto) where
  abbrev pub behind_session : Handler Store → Handler Store
  behind_session next = session_gate c (λ s. s) next

  me_lem :
      (env : Env) (ctx : Context) (r : Request) (s : Store) (token : String) (u : CloudUser)
      → Carries token r
      → validate_session c token s ≡ returned u
      → behind_session handle_me env ctx r s
        ≡ (record { status = 200; answer = account u.id u.username }, s)
  unfolding handle_me
  me_lem env ctx r s token u h v = admits c (λ s. s) (json_error 401) _ r s token u h v

  -- The session is open: with its token, /v1/cloud/me answers the user.
  abbrev pub Opens : String → String → Store → Type 0
  Opens token id s =
      (env : Env) (ctx : Context) (r : Request)
      → Carries token r
      → (name : String) × (behind_session handle_me env ctx r s
          ≡ (record { status = 200; answer = account id name }, s))

  -- Whatever handler stands behind the gate, it is not run for the token.
  abbrev pub Shuts : String → Store → Type 0
  Shuts token s =
      (next : Handler Store) (env : Env) (ctx : Context) (r : Request)
      → Carries token r
      → behind_session next env ctx r s ≡ (json_error 401 "invalid_session", s)

  abbrev pub LoginRequestEnds : String → String → String → Store → Response × Store → Type 0
  LoginRequestEnds username password token s result =
      ((u : CloudUser) × (result.0
          ≡ record { status = 200; answer = cloud_session token u.id u.username })
        × Opens token u.id result.1)
      ⊎ ((result.0 ≡ json_error 401 "invalid_credentials")
          × (result.1.state ≡ s.state)
          × ((e : CloudError) × LoginFailed c username password s e))

  answer_login_lem :
      (username password token : String) (s : Store) (a : Returned (String × CloudUser) × Store)
      → LoginEnds c username password token s a
      → LoginRequestEnds username password token s (answer_login a)
  answer_login_lem username password token s (returned (x, u), t) h = inl (
    u,
    ap (λ token. record { status = 200; answer = cloud_session token u.id u.username }) h.is_token,
    λ env ctx r carries.
        let (v, valid, same) = h.opens in
        (
          v.username,
          me_lem env ctx r t token v carries valid
              ∙ ap (λ id. (record { status = 200; answer = account id v.username }, t)) same,
        ),
  )
  answer_login_lem username password token s (failed e, t) h = inr (refl, h.1, (e, h.0))

  -- A request to log in whose draw is a token that is not empty and that no session has ends in one of two
  -- ways. It is answered 200 with the token and a user, and from then on /v1/cloud/me answers every request
  -- that carries the token with the id of that user. Or it is answered 401 and the state is as it was: the name is
  -- unknown, the password is wrong, or the session could not be saved.
  pub handle_login_lem :
      (env : Env) (ctx : Context) (r : Request) (s : Store) (username password token : String)
      → decode_account r.body ≡ some (username, password)
      → env.new_token ≡ some token
      → token ≢ ""
      → any (has_hash (c.hash token)) s.state.cloud_sessions ≡ false
      → LoginRequestEnds username password token s (handle_login c env ctx r s)
  unfolding handle_login
  handle_login_lem env ctx r s username password token b n nonempty fresh = rw b (
      rw n (
        answer_login_lem username password token s
          (login c (record (draw_of env) { token = some token }) env.faults username password s)
          (login_lem c (draw_of env) env.faults username password token s nonempty fresh)))

  abbrev pub LogoutRequestEnds : String → Store → Response × Store → Type 0
  LogoutRequestEnds token s result =
      ((result.0 ≡ plain 204) × Shuts token result.1 × LoggedOut c token s result.1)
      ⊎ ((result.0 ≡ json_error 500 "logout_failed") × (result.1.state ≡ s.state))

  answer_logout_lem :
      (token : String) (s : Store) (a : Returned Unit × Store)
      → LogoutEnds c token s a
      → LogoutRequestEnds token s (answer_logout a)
  answer_logout_lem token s (returned x, t) h = inl (
    refl,
    λ next env ctx r carries.
        refuses c (λ s. s) (json_error 401) _ r t token session_invalid carries h.dead,
    h,
  )
  answer_logout_lem token s (failed e, t) h = inr (refl, h.1)

  extracts : (r : Request) (token : String) → Carries token r → extract_device_key r ≡ token
  unfolding extract_device_key
  extracts r token h = rw h refl

  -- A request to log out whose token stands for a user ends in one of two ways. It is answered 204, and from
  -- then on no handler behind the gate is run for the token, every session with another hash is as it was, and so are
  -- users and files. Or it is answered 500, and the state is as it was.
  pub handle_logout_lem :
      (env : Env) (ctx : Context) (r : Request) (s : Store) (token : String) (u : CloudUser)
      → Carries token r
      → validate_session c token s ≡ returned u
      → LogoutRequestEnds token s (behind_session (handle_logout c) env ctx r s)
  unfolding handle_logout
  handle_logout_lem env ctx r s token u h v =
      subst (LogoutRequestEnds token s)
        (sym (
          admits c (λ s. s) (json_error 401)
            (λ u. handle_logout c env (record ctx { cloud_user = some u }) r s) r s token u h v
          ∙ ap (λ key. answer_logout (logout c env.faults key s)) (extracts r token h)))
        (answer_logout_lem token s (logout c env.faults token s) (logout_lem c env.faults token s))
