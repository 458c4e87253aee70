-- ===== src/Auth/Middleware.antt =====
-- internal/auth/middleware.go and internal/auth/localrequest.go: the gates that the routes put
-- before their handlers, over any server state that has a store.
pub mod Gates
mod Tests
use a6_core.Prelude.{String, ◌≡◌, Bool, true, false, Option, none, some, cut_prefix, if◌then◌else◌}
use a6_core.State.Types.{Device}
use a6_core.State.Store.{Store}
use a6_core.Auth.Device.{validate_device_key}
use a6_core.Http.{Ip, is_loopback, Request, Response, json_error, Context, Env, Handler}

-- `IsLocalRequest`
abbrev is_local : Option Ip → Bool
is_local none = false
is_local (some ip) = is_loopback ip

abbrev pub is_local_request : Request → Bool
is_local_request r = is_local r.ip

-- how the middleware gets at the store of a server
pub record HasStore (S : Type 0) : Type 0 where
  pub store : S → Store
  pub with_store : S → Store → S
  pub store-with_store : (s : S) (t : Store) → store (with_store s t) ≡ t
  pub with_store_same : (s : S) → with_store s (store s) ≡ s

abbrev pub missing_token : Response
missing_token = json_error 401 "missing_token"

abbrev pub invalid_token : Response
invalid_token = json_error 401 "invalid_token"

abbrev pub primary_required : Response
primary_required = json_error 403 "primary_required"

abbrev not_local : Response
not_local = json_error 403 "not_local"

module _ {S : Type 0} (access : HasStore S) (hash : String → String) where
  abbrev pub with_device : Handler S → Env → Context → Request → S → Option Device → Response × S
  with_device next env ctx r s none = (invalid_token, s)
  with_device next env ctx r s (some d) = next env (record ctx { device = some d }) r s

  abbrev pub with_key : Handler S → Env → Context → Request → S → Option String → Response × S
  with_key next env ctx r s none = (missing_token, s)
  with_key next env ctx r s (some key) =
      let (found, store') =
        validate_device_key hash key env.now env.stamp env.touch_faults (access.store s) in
      with_device next env ctx r (access.with_store s store') found

  -- `RequireDevice`
  unfoldable pub require_device : Handler S → Handler S
  require_device next env ctx r s = with_key next env ctx r s (cut_prefix "Bearer " r.authorization)

module _ {S : Type 0} where
  abbrev if_primary : Response × S → Response × S → Option Device → Response × S
  if_primary denied run none = denied
  if_primary denied run (some d) = if d.is_primary then run else denied

  -- `RequirePrimary`
  unfoldable pub require_primary : Handler S → Handler S
  require_primary next env ctx r s = if_primary (primary_required, s) (next env ctx r s) ctx.device

  -- `RequireLocalhost`
  unfoldable pub require_localhost : Handler S → Handler S
  require_localhost next env ctx r s =
      if is_local_request r then next env ctx r s else (not_local, s)
