-- ===== src/Server/Pairing/Outcomes.antt =====
-- Pairing either adds exactly one device, of which the answer holds the key, or changes no device
-- and announces none.
use a6_core.Prelude.{
  String, ◌≡◌, refl, ap, ◌≢◌, ◌⊎◌, inl, inr, Bool, true, false, Option, none, some, List, [], ◌∷◌,
  ◌++◌, arith, ◌==◌, Bool-cases, eq_of_test, ne_of_test, if◌then◌else◌,
}
use a6_core.State.Types.{Device, State}
use a6_core.State.Disk.Crash.{saved}
use a6_core.State.Store.{Store, Updated, done, refused, unsaved, update}
use a6_core.State.Store.Atomicity.{Transacts, update-Transacts}
use a6_core.Auth.Middleware.{is_local_request}
use a6_core.Auth.RateLimit.{allow}
use a6_core.Auth.Pairing.{redeem, PairingManager}
use a6_core.Http.{Request, Response, paired, Env, Context}
use a6_core.Events.{Event}
use a6_core.Server.App.{App}
use a6_core.Server.Pairing.{
  default_name, device_type_for, is_first, add_device, new_device, answer_paired, pair_with_key,
  pair_redeemed, pair_decoded, decode_pair, handle_pair,
}

-- No device was added or announced, and the answer is an error.
pub record NotPaired (st : State) (log : List Event) (result : Response × App) : Type 0 where
  pub status : result.0.status ≢ 200
  pub state : result.1.store.state ≡ st
  pub published : result.1.published ≡ log

-- Of two cases the one that holds, with what it says.
abbrev pub Either : Type 0 → Type 0 → Type 0 → Type 0
Either case then_so else_so = (case × then_so) ⊎ ((case → ⊥) × else_so)

-- the device that a request makes, with the key that is answered, among those that are paired
pub record Describes (hash : String → String) (env : Env) (r : Request) (paired : List Device)
    (name key : String) (d : Device) : Type 0 where
  pub id : d.id ≡ env.new_id
  pub called : Either (name ≡ "") (d.name ≡ "Unnamed device") (d.name ≡ name)
  pub hashed : d.key_hash ≡ hash key
  pub at : (d.paired_at ≡ env.stamp) × (d.last_seen ≡ env.stamp)
  pub origin :
      Either (is_local_request r ≡ true) (d.device_type ≡ "shell") (d.device_type ≡ "phone")
  pub leads : Either (paired ≡ []) (d.is_primary ≡ true) (d.is_primary ≡ false)

abbrev pub led_by : List Device → Device → Device
led_by ds d = if is_first ds then record d { is_primary = true } else d

name-led_by : (ds : List Device) (d : Device) → d.name ≡ (led_by ds d).name
name-led_by [] d = refl
name-led_by (x ∷ ds) d = refl

called_lem :
    (name : String)
    → Either (name ≡ "") (default_name name ≡ "Unnamed device") (default_name name ≡ name)
called_lem name = elim (Bool-cases (name == "")) [
  | inl e ↦ inl (eq_of_test name "" e, rw e refl)
  | inr e ↦ inr (ne_of_test name "" e, rw e refl)
]

origin_lem :
    (r : Request)
    → Either (is_local_request r ≡ true) (device_type_for r ≡ "shell") (device_type_for r ≡ "phone")
origin_lem r = elim (Bool-cases (is_local_request r)) [
  | inl e ↦ inl (e, rw e refl)
  | inr e ↦ inr (λ h. cc (e, h), rw e refl)
]

module _ (hash : String → String) where
  -- The device was added at the end, in memory and in the file, and its key was answered.
  pub record Paired (env : Env) (r : Request) (st : State) (log : List Event) (name : String)
      (result : Response × App) : Type 0 where
    pub key : String
    pub drawn : env.new_key ≡ some key
    pub answered : result.0 ≡ record { status = 200; answer = paired env.new_id key st.core_name }
    pub added : result.1.store.state ≡ record st {
      devices = st.devices ++ led_by st.devices (new_device hash env r name key) ∷ [];
    }
    pub describes :
        Describes hash env r st.devices name key
          (led_by st.devices (new_device hash env r name key))
    pub durable : result.1.store.disk.primary ≡ saved result.1.store.state
    pub announced :
        result.1.published
        ≡ record {
          event = "device.paired";
          fields =
              ("device_id", env.new_id)
              ∷ ("device_name", (led_by st.devices (new_device hash env r name key)).name)
              ∷ [];
        }
          ∷ log

  abbrev Outcomes : Env → Request → State → List Event → String → Response × App → Type 0
  Outcomes env r st log name result = NotPaired st log result ⊎ Paired env r st log name result

  describes_lem :
      (env : Env) (r : Request) (ds : List Device) (name key : String)
      → Describes hash env r ds name key (led_by ds (new_device hash env r name key))
  unfolding new_device
  describes_lem env r [] name key = record {
    id = refl;
    called = called_lem name;
    hashed = refl;
    at = (refl, refl);
    origin = origin_lem r;
    leads = inl (refl, refl);
  }
  describes_lem env r (x ∷ ds) name key = record {
    id = refl;
    called = called_lem name;
    hashed = refl;
    at = (refl, refl);
    origin = origin_lem r;
    leads = inr (λ e. cc e, refl);
  }

  answer_paired_lem :
      (env : Env) (r : Request) (s : App) (name key : String) (u : Updated Unit String × Store)
      → env.new_key ≡ some key
      → Transacts s.store (add_device (new_device hash env r name key) s.store.state) u
      → Outcomes env r s.store.state s.published name
          (answer_paired hash (new_device hash env r name key) key s u)
  unfolding add_device new_device
  answer_paired_lem env r s name key (done core, t) e h = inr (record {
    key = key;
    drawn = e;
    answered = cc (h.0);
    added = cc (h.0);
    durable = h.1;
    describes = describes_lem env r s.store.state.devices name key;
    announced =
        ap
          (λ n.
            record {
              event = "device.paired";
              fields = ("device_id", env.new_id) ∷ ("device_name", n) ∷ [];
            }
            ∷ s.published)
          (name-led_by s.store.state.devices (new_device hash env r name key));
  })
  answer_paired_lem env r s name key (refused x, t) e h =
      inl
        (record { status = omega arith; state = ap (λ (x : Store). x.state) h.1; published = refl })
  answer_paired_lem env r s name key (unsaved x, t) e h =
      inl (record { status = omega arith; state = h.0; published = refl })

  -- a step before the update does not touch the store
  pair_redeemed_lem :
      (env : Env) (r : Request) (s : App) (name : String) (ok : Bool) (p : PairingManager)
      → Outcomes env r s.store.state s.published name (pair_redeemed hash env r name s (ok, p))
  pair_redeemed_lem env r s name false p =
      inl (record { status = omega arith; state = refl; published = refl })
  pair_redeemed_lem env r s name true p = go env.new_key refl
    where
      go :
          (o : Option String)
          → env.new_key ≡ o
          → Outcomes env r s.store.state s.published name
              (pair_with_key hash env r name (record s { pairing = p }) o)
      go none e = inl (record { status = omega arith; state = refl; published = refl })
      go (some key) e =
          let d = new_device hash env r name key in
          answer_paired_lem env r (record s { pairing = p }) name key
            (update (add_device d) env.faults s.store) e
            (update-Transacts (add_device d) env.faults s.store)

  accepted_lem :
      (env : Env) (r : Request) (s : App) (name : String) (found : Bool × PairingManager)
      → NotPaired s.store.state s.published (pair_redeemed hash env r name s found)
        ⊎ ((found.0 ≡ true)
            × Paired env r s.store.state s.published name (pair_redeemed hash env r name s found))
  accepted_lem env r s name (false, p) =
      inl (record { status = omega arith; state = refl; published = refl })
  accepted_lem env r s name (true, p) = elim (pair_redeemed_lem env r s name true p) [
    | inl n ↦ inl n
    | inr y ↦ inr (refl, y)
  ]

  -- What the rest of the handler needs of the decoded body.
  abbrev Decoded : Env → Request → App → Option (String × String) → Type 0
  Decoded env r s o =
      NotPaired s.store.state s.published (pair_decoded hash env r s o)
      ⊎ ((token : String) × (name : String) × (o ≡ some (token, name))
          × ((redeem env.now token s.pairing).0 ≡ true)
          × Paired env r s.store.state s.published name (pair_decoded hash env r s o))

  pair_decoded_lem :
      (env : Env) (r : Request) (s : App) (o : Option (String × String)) → Decoded env r s o
  pair_decoded_lem env r s none =
      inl (record { status = omega arith; state = refl; published = refl })
  pair_decoded_lem env r s (some (token, name)) = elim (Bool-cases (token == "")) [
    | inl e ↦ inl (rw e (record { status = omega arith; state = refl; published = refl }))
    | inr e ↦ elim (accepted_lem env r s name (redeem env.now token s.pairing)) [
      | inl n ↦ inl (rw e n)
      | inr (ok, y) ↦ inr (token, name, refl, ok, rw e y)
    ]
  ]

  pub record Accepts (env : Env) (r : Request) (s : App) (name : String) : Type 0 where
    pub token : String
    pub within_limit : (allow env.now r.host s.rate_limit).0 ≡ true
    pub carries : decode_pair r.body ≡ some (token, name)
    pub redeems : (redeem env.now token s.pairing).0 ≡ true

  -- A pairing request has one of two ends. Either it adds exactly one device, at the end of the list,
  -- in memory and in the state file, for a request within the rate limit whose token was accepted;
  -- the device is primary exactly if it is the first, has the type that the origin of the request
  -- gives it and the hash of the key that is answered, and it is announced. Or the answer is an
  -- error, no device changed, and nothing is announced.
  pub handle_pair_lem :
      (env : Env) (ctx : Context) (r : Request) (s : App)
      → let result = handle_pair hash env ctx r s in
        NotPaired s.store.state s.published result
        ⊎ ((name : String) × Accepts env r s name
            × Paired env r s.store.state s.published name result)
  unfolding handle_pair
  handle_pair_lem env ctx r s =
      let (ok, limiter) = allow env.now r.host s.rate_limit in
      elim (Bool-cases ok) [
        | inr e ↦ inl (rw e (record { status = omega arith; state = refl; published = refl }))
        | inl e ↦
            elim (pair_decoded_lem env r (record s { rate_limit = limiter }) (decode_pair r.body)) [
              | inl n ↦ inl (rw e n)
              | inr (token, name, carries, redeems, y) ↦ inr (
                name,
                record { token = token; within_limit = e; carries = carries; redeems = redeems },
                rw e y,
              )
            ]
      ]
