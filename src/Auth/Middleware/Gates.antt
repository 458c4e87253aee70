-- ===== src/Auth/Middleware/Gates.antt =====
-- A handler behind the gates runs only for whom they are meant, and a refusal has no effect.
use a6_core.Prelude.{
  String, ◌≡◌, refl, ◌⊎◌, inl, inr, true, false, Option, none, some, cut_prefix, All, ◌∙◌, ap,
  Bool-cases,
}
use a6_core.State.Types.{Device}
use a6_core.State.Store.{Store}
use a6_core.Auth.Device.{matches, validate_device_key}
use a6_core.Auth.Device.Laws.{SameButSeen, FirstWith, validate_device_key_lem}
use a6_core.Auth.Middleware.{
  HasStore, missing_token, invalid_token, primary_required, with_device, with_key, require_device,
  require_primary,
}
use a6_core.Http.{Request, Response, Context, Env, Handler}

module _ {S : Type 0} (access : HasStore S) (hash : String → String) where
  -- The request carries no key, or one that no paired device has.
  abbrev pub NoDevice : Request → S → Response × S → Type 0
  NoDevice r s result =
      ((cut_prefix "Bearer " r.authorization ≡ none) × (result ≡ (missing_token, s)))
      ⊎ ((key : String) × (cut_prefix "Bearer " r.authorization ≡ some key)
          × All (λ d. matches hash key d ≡ false) (access.store s).state.devices
          × (result ≡ (invalid_token, s)))

  -- The request carries the key of a paired device, and the result is that of the handler, run for
  -- that device on a state in which at most times of last use changed.
  pub record RunsFor (next : Handler S) (env : Env) (ctx : Context) (r : Request) (s : S)
      (result : Response × S) : Type 0 where
    pub key : String
    pub device : Device
    pub store : Store
    pub carries : cut_prefix "Bearer " r.authorization ≡ some key
    pub knows : FirstWith (matches hash key) (access.store s).state.devices device
    pub touches : SameButSeen (access.store s).state store.state
    pub runs : result ≡ next env (record ctx { device = some device }) r (access.with_store s store)

  with_key_lem :
      (next : Handler S) (env : Env) (ctx : Context) (r : Request) (s : S) (o : Option String)
      → cut_prefix "Bearer " r.authorization ≡ o
      → NoDevice r s (with_key access hash next env ctx r s o)
        ⊎ RunsFor next env ctx r s (with_key access hash next env ctx r s o)
  with_key_lem next env ctx r s none e = inl (inl (e, refl))
  with_key_lem next env ctx r s (some key) e =
      elim (validate_device_key_lem hash key env.now env.stamp env.touch_faults (access.store s)) [
        | inl (v, a) ↦ inl (
            inr (
              key,
              e,
              a,
              rw (ap (λ x. x.0) v, with_device)
                  (rw (ap (λ x. x.1) v) (rw (access.with_store_same s))),
            ))
        | inr (d, v, w, same) ↦ inr (record {
          key = key;
          device = d;
          store =
              (validate_device_key hash key env.now env.stamp env.touch_faults (access.store s)).1;
          carries = e;
          knows = w;
          touches = same;
          runs = rw (v, with_device);
        })
      ]

  -- Behind `RequireDevice` a request without the key of a paired device is answered 401 and changes
  -- nothing. Any other runs the handler for the first device with that key, after a change of at
  -- most times of last use.
  pub require_device_lem :
      (next : Handler S) (env : Env) (ctx : Context) (r : Request) (s : S)
      → NoDevice r s (require_device access hash next env ctx r s)
        ⊎ RunsFor next env ctx r s (require_device access hash next env ctx r s)
  unfolding require_device
  require_device_lem next env ctx r s =
      with_key_lem next env ctx r s (cut_prefix "Bearer " r.authorization) refl

  -- A refusal by `RequirePrimary` behind `RequireDevice`: no device, or one that is not primary.
  abbrev pub Refused : Request → S → Response × S → Type 0
  Refused r s result =
      NoDevice r s result
      ⊎ ((d : Device) × (store : Store) × (d.is_primary ≡ false)
          × SameButSeen (access.store s).state store.state
          × (result ≡ (primary_required, access.with_store s store)))

  -- A handler behind `RequireDevice` and `RequirePrimary` runs only for a request that carries the
  -- key of a paired device which is primary. Any other is answered 401 or 403, and changes at most
  -- times of last use.
  pub primary_gate :
      (next : Handler S) (env : Env) (ctx : Context) (r : Request) (s : S)
      → let result = require_device access hash (require_primary next) env ctx r s in
        Refused r s result
        ⊎ ((run : RunsFor next env ctx r s result) × (run.device.is_primary ≡ true))
  unfolding require_primary
  primary_gate next env ctx r s = elim (require_device_lem (require_primary next) env ctx r s) [
    | inl refused ↦ inl (inl refused)
    | inr run ↦ elim (Bool-cases run.device.is_primary) [
      | inr guest ↦ inl (inr (run.device, run.store, guest, run.touches, run.runs ∙ rw guest))
      | inl leads ↦ inr (
        record {
          key = run.key;
          device = run.device;
          store = run.store;
          carries = run.carries;
          knows = run.knows;
          touches = run.touches;
          runs = run.runs ∙ rw leads;
        },
        leads,
      )
    ]
  ]
