-- ===== src/Auth/CloudSession.antt =====
-- internal/auth/cloud_middleware.go: the gate before the handlers of the personal cloud, for any
-- type of answer and any state that has the store.
use a6_core.Prelude.{String, Option, none, some, ◌≡◌, ap, ◌∙◌, cut_prefix}
use a6_core.State.Types.{CloudUser}
use a6_core.State.Store.{Store}
use a6_core.Cloud.Accounts.{Crypto, CloudError, Returned, returned, failed, validate_session}
use a6_core.Http.{Request, json_error, Handler}

module _ (c : Crypto) {A S : Type 0} (store : S → Store) (refusal : String → A) where
  abbrev pub with_user : (CloudUser → A × S) → S → Returned CloudUser → A × S
  with_user next s (returned u) = next u
  with_user next s (failed e) = (refusal "invalid_session", s)

  abbrev pub with_token : (CloudUser → A × S) → S → Option String → A × S
  with_token next s none = (refusal "missing_token", s)
  with_token next s (some token) = with_user next s (validate_session c token (store s))

  -- `RequireCloudSession`; `next` is the handler, which gets the user with the context
  unfoldable pub require_session : (CloudUser → A × S) → Request → S → A × S
  require_session next r s = with_token next s (cut_prefix "Bearer " r.authorization)

  pub admits :
      (next : CloudUser → A × S) (r : Request) (s : S) (token : String) (u : CloudUser)
      → cut_prefix "Bearer " r.authorization ≡ some token
      → validate_session c token (store s) ≡ returned u
      → require_session next r s ≡ next u
  unfolding require_session
  admits next r s token u h v = ap (with_token next s) h ∙ ap (with_user next s) v

  pub refuses :
      (next : CloudUser → A × S) (r : Request) (s : S) (token : String) (e : CloudError)
      → cut_prefix "Bearer " r.authorization ≡ some token
      → validate_session c token (store s) ≡ failed e
      → require_session next r s ≡ (refusal "invalid_session", s)
  unfolding require_session
  refuses next r s token e h v = ap (with_token next s) h ∙ ap (with_user next s) v

-- the gate before a handler
abbrev pub session_gate : {S : Type 0} → Crypto → (S → Store) → Handler S → Handler S
session_gate c store next env ctx r s =
    require_session c store (json_error 401)
      (λ u. next env (record ctx { cloud_user = some u }) r s) r s
