-- ===== src/Server/Routes/Authority.antt =====
-- What a request changes, it has the authority for.
use a6_core.Prelude.{
  ◌≤◌, String, Bool, true, false, Option, none, some, List, ◌≡◌, refl, sym, ap, subst, ◌⊎◌, inl,
  inr, find, cut_prefix, Bool-cases, if◌then◌else◌, arith,
}
use a6_core.State.Types.{CloudUser}
use a6_core.State.Store.{Store}
use a6_core.Cloud.Accounts.{Crypto, Returned, returned, failed, validate_session}
use a6_core.Auth.Device.Laws.{SameButSeen}
use a6_core.Auth.CloudSession.{with_user, with_token, require_session}
use a6_core.Auth.Middleware.{HasStore, is_local_request, require_localhost}
use a6_core.Auth.Middleware.Gates.{NoDevice, Refused, RunsFor, require_device_lem, primary_gate}
use a6_core.Http.{Request, Response, json_error, Context, Env, Handler}
use a6_core.Server.Routes.Required.{required, gate_of}
use a6_core.Server.Routes.{
  Gate, unguarded, localhost, device, primary, session, own, Endpoint, Route, routes, fits, guard,
  serve_found, serve,
}

no_route : (b : Bool) → 400 ≤ (if b then 405 else 404)
no_route true = omega arith
no_route false = omega arith

module _ {S : Type 0} (access : HasStore S) (hash : String → String) (c : Crypto) where
  -- The answer is an error, and at most times of last use changed.
  abbrev pub Denied : S → Response × S → Type 0
  Denied s result =
      (400 ≤ result.0.status)
      × ((result.1 ≡ s)
          ⊎ ((store : Store) × SameButSeen (access.store s).state store.state
              × (result.1 ≡ access.with_store s store)))

  -- The handler ran, for a request with the authority that its gate asks for.
  abbrev pub Granted : Gate → Handler S → Env → Context → Request → S → Response × S → Type 0
  Granted unguarded next env ctx r s result = result ≡ next env ctx r s
  Granted localhost next env ctx r s result =
      (is_local_request r ≡ true) × (result ≡ next env ctx r s)
  Granted device next env ctx r s result = RunsFor access hash next env ctx r s result
  Granted primary next env ctx r s result =
      (run : RunsFor access hash next env ctx r s result) × (run.device.is_primary ≡ true)
  Granted session next env ctx r s result =
      (token : String) × (u : CloudUser) × (cut_prefix "Bearer " r.authorization ≡ some token)
      × (validate_session c token (access.store s) ≡ returned u)
      × (result ≡ next env (record ctx { cloud_user = some u }) r s)
  Granted own next env ctx r s result = result ≡ next env ctx r s

  NoDevice-Denied :
      (r : Request) (s : S) (result : Response × S)
      → NoDevice access hash r s result
      → Denied s result
  NoDevice-Denied r s result (inl (e, h)) = subst (Denied s) (sym h) (omega arith, inl refl)
  NoDevice-Denied r s result (inr (key, e, a, h)) = subst (Denied s) (sym h) (omega arith, inl refl)

  Refused-Denied :
      (r : Request) (s : S) (result : Response × S)
      → Refused access hash r s result
      → Denied s result
  Refused-Denied r s result (inl h) = NoDevice-Denied r s result h
  Refused-Denied r s result (inr (d, store, guest, same, h)) =
      subst (Denied s) (sym h) (omega arith, inr (store, same, refl))

  session_user :
      (next : Handler S) (env : Env) (ctx : Context) (r : Request) (s : S) (token : String)
      (o : Returned CloudUser)
      → cut_prefix "Bearer " r.authorization ≡ some token
      → validate_session c token (access.store s) ≡ o
      → let result =
          with_user c access.store
            (json_error 401)
            (λ u. next env (record ctx { cloud_user = some u }) r s)
            s
            o in
        Denied s result ⊎ Granted session next env ctx r s result
  session_user next env ctx r s token (returned u) h v = inr (token, u, h, v, refl)
  session_user next env ctx r s token (failed e) h v = inl (omega arith, inl refl)

  session_token :
      (next : Handler S) (env : Env) (ctx : Context) (r : Request) (s : S) (o : Option String)
      → cut_prefix "Bearer " r.authorization ≡ o
      → let result =
          with_token c access.store
            (json_error 401)
            (λ u. next env (record ctx { cloud_user = some u }) r s)
            s
            o in
        Denied s result ⊎ Granted session next env ctx r s result
  session_token next env ctx r s none h = inl (omega arith, inl refl)
  session_token next env ctx r s (some token) h =
      session_user next env ctx r s token (validate_session c token (access.store s)) h refl

  -- Behind any gate, a handler runs for a request with the authority, or the request is denied.
  pub guard_lem :
      (g : Gate) (next : Handler S) (env : Env) (ctx : Context) (r : Request) (s : S)
      → let result = guard access hash c g next env ctx r s in
        Denied s result ⊎ Granted g next env ctx r s result
  unfolding require_session require_localhost
  guard_lem unguarded next env ctx r s = inr refl
  guard_lem localhost next env ctx r s = elim (Bool-cases (is_local_request r)) [
    | inl e ↦ inr (e, ap (λ b. if b then next env ctx r s else (json_error 403 "not_local", s)) e)
    | inr e ↦ inl (
        subst (Denied s)
          (sym (ap (λ b. if b then next env ctx r s else (json_error 403 "not_local", s)) e))
          (omega arith, inl refl))
  ]
  guard_lem device next env ctx r s = elim (require_device_lem access hash next env ctx r s) [
    | inl h ↦ inl (NoDevice-Denied r s _ h)
    | inr run ↦ inr run
  ]
  guard_lem primary next env ctx r s = elim (primary_gate access hash next env ctx r s) [
    | inl h ↦ inl (Refused-Denied r s _ h)
    | inr run ↦ inr run
  ]
  guard_lem session next env ctx r s =
      session_token next env ctx r s (cut_prefix "Bearer " r.authorization) refl
  guard_lem own next env ctx r s = inr refl

  -- A route was found, and its handler ran with the authority that the route asks for.
  abbrev pub Served :
      (Endpoint → Handler S) → List String → Env → Context → Request → S → Response × S → Type 0
  Served handlers path env ctx r s result =
      (t : Route) × (find (fits r.method path) routes ≡ some t)
      × Granted (required t.endpoint) (handlers t.endpoint) env ctx r s result

  serve_found_lem :
      (handlers : Endpoint → Handler S) (path : List String) (env : Env) (ctx : Context)
      (r : Request) (s : S) (o : Option Route)
      → find (fits r.method path) routes ≡ o
      → let result = serve_found access hash c handlers path env ctx r s o in
        Denied s result ⊎ Served handlers path env ctx r s result
  serve_found_lem handlers path env ctx r s none h = inl (no_route _, inl refl)
  serve_found_lem handlers path env ctx r s (some t) h =
      elim (guard_lem t.gate (handlers t.endpoint) env ctx r s) [
        | inl denied ↦ inl denied
        | inr granted ↦ inr (
          t,
          h,
          subst
              (λ g.
                Granted g (handlers t.endpoint) env ctx r s
                  (guard access hash c t.gate (handlers t.endpoint) env ctx r s))
              (gate_of r.method path t h) granted,
        )
      ]

  -- Whatever the handlers do, a request of any method and path ends in one of two ways. A route of the
  -- table fits it, and that route's handler ran with the authority that `required` asks for: none for the
  -- health check and for pairing, the localhost for the generation of pairing tokens, the key of a primary
  -- device for a promotion and for the shutdown, the token of a session for the cloud's files, its logout and
  -- who is logged in, the handler's own check for the two streams, and the key of a paired device for all the
  -- rest; the handler is given the device or the user. Or the answer is an error, and at most times of last
  -- use changed.
  pub effects_need_authority :
      (handlers : Endpoint → Handler S) (path : List String) (env : Env) (ctx : Context)
      (r : Request) (s : S)
      → let result = serve access hash c handlers path env ctx r s in
        Denied s result ⊎ Served handlers path env ctx r s result
  unfolding serve
  effects_need_authority handlers path env ctx r s =
      serve_found_lem handlers path env ctx r s (find (fits r.method path) routes) refl
