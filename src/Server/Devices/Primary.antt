-- ===== src/Server/Devices/Primary.antt =====
-- Who may lead the appliance after devices are paired, promoted and revoked.
use a6_core.Prelude.{
  ℕ, ◌<◌, String, ◌≡◌, refl, sym, ◌∙◌, ap, subst, ◌≢◌, ◌⊎◌, inl, inr, true, false, List, [], ◌∷◌,
  ◌++◌, arith, any-append, length, find, some,
}
use mathlib.Core.Bool.{false≢true}
use a6_core.State.Types.{Device, State}
use a6_core.State.Migrate.{has_primary}
use a6_core.Http.{Request, Response, Env, Context, Handler}
use a6_core.Server.App.{App, app_store}
use a6_core.Auth.Middleware.{require_device, require_primary}
use a6_core.Auth.Middleware.Gates.{Refused, primary_gate}
use a6_core.Server.Pairing.{new_device, handle_pair}
use a6_core.Server.Pairing.Outcomes.{led_by, handle_pair_lem}
use a6_core.Server.Devices.{
  has_id, remove, promote_first, handle_device_promote, remove_first, handle_device_delete,
}
use a6_core.State.Store.Atomicity.{SaveFails}
use a6_core.Server.Devices.Effects.{
  IsLast, Reason, no_id, unknown, last, not_saved, handle_device_delete_lem,
  handle_device_promote_lem,
}

-- There is a primary device as soon as there is a device.
abbrev pub Led : List Device → Type 0
Led ds = (ds ≡ []) ⊎ (has_primary ds ≡ true)

Led-added : (ds : List Device) (d : Device) → Led ds → Led (ds ++ led_by ds d ∷ [])
Led-added [] d h = inr refl
Led-added (x ∷ ds) d (inl e) = absurd (cc)
Led-added (x ∷ ds) d (inr e) =
    inr
      (ground (arith, any-append (λ (y : Device). y.is_primary) (x ∷ ds) (led_by (x ∷ ds) d ∷ [])))

has_primary-promote_first :
    (id : String) (ds : List Device)
    → has_primary ds ≡ true
    → has_primary (promote_first id ds) ≡ true
has_primary-promote_first id [] h = h
has_primary-promote_first id (d ∷ ds) h = ground (arith, has_primary-promote_first id ds)

Led-promoted : (id : String) (ds : List Device) → Led ds → Led (promote_first id ds)
Led-promoted id [] h = h
Led-promoted id (x ∷ ds) (inl e) = absurd (cc)
Led-promoted id (x ∷ ds) (inr e) = inr (has_primary-promote_first id (x ∷ ds) e)

abbrev devices_after : Response × App → List Device
devices_after result = result.1.store.state.devices

-- Pairing and promoting keep the appliance led: whatever the request and whatever fails, if there
-- was a primary device as soon as there was a device, then so there is afterwards.
pub pairing_and_promotion-Led :
    (hash : String → String) (env : Env) (ctx : Context) (r : Request) (s : App)
    → Led s.store.state.devices
    → Led (devices_after (handle_pair hash env ctx r s))
      × Led (devices_after (handle_device_promote env ctx r s))
pairing_and_promotion-Led hash env ctx r s h =
    let ds = s.store.state.devices in
    let of = λ (st : State). st.devices in
    (
      elim (handle_pair_lem hash env ctx r s) [
        | inl n ↦ subst Led (sym (ap of n.state)) h
        | inr (name, _, y) ↦
            subst Led (sym (ap of y.added)) (Led-added ds (new_device hash env r name y.key) h)
      ],
      elim (handle_device_promote_lem env ctx r s) [
        | inl n ↦ subst Led (sym (ap of n.state)) h
        | inr y ↦ subst Led (sym (ap of y.state)) (Led-promoted r.path_id ds h)
      ],
    )

length-remove_first :
    (id : String) (ds : List Device) → 1 < length ds → 0 < length (remove_first id ds)
length-remove_first id [] h = omega arith
length-remove_first id (d ∷ []) h = absurd (omega arith)
length-remove_first id (d ∷ x ∷ ds) h = ground arith

-- Revoking never leaves an appliance without a device: where there was one, there is one.
deletion_leaves_a_device :
    (env : Env) (ctx : Context) (r : Request) (s : App)
    → 0 < length s.store.state.devices
    → 0 < length (devices_after (handle_device_delete env ctx r s))
deletion_leaves_a_device env ctx r s h = elim (handle_device_delete_lem env ctx r s) [
  | inl n ↦ rw n.state h
  | inr y ↦ rw y.state (length-remove_first r.path_id s.store.state.devices y.several)
]

has_primary_of_split :
    (ds before after : List Device) (d : Device)
    → ds ≡ before ++ d ∷ after
    → d.is_primary ≡ true
    → has_primary ds ≡ true
has_primary_of_split ds before after d e h =
    rw e (ground (arith, any-append (λ (y : Device). y.is_primary) before (d ∷ after)))

-- Where no device is primary, no request passes the gate for primary devices.
nobody_leads :
    (hash : String → String) (t : App)
    → has_primary t.store.state.devices ≡ false
    → (next : Handler App) (env : Env) (ctx : Context) (r : Request)
    → Refused app_store hash r t (require_device app_store hash (require_primary next) env ctx r t)
nobody_leads hash t none_left next env ctx r = elim (primary_gate app_store hash next env ctx r t) [
  | inl refused ↦ refused
  | inr (run, leads) ↦
      let w = run.knows in
      let p =
        has_primary_of_split t.store.state.devices w.before w.after run.device w.split leads in
      absurd (false≢true (sym none_left ∙ p))
]

pub not_204 :
    (id : String) (st : State) (fails stays : Type 0) (status : ℕ)
    → Reason id st fails stays status
    → status ≢ 204
not_204 id st fails stays status (no_id e s) = omega arith
not_204 id st fails stays status (unknown n f s) = omega arith
not_204 id st fails stays status (last d n f l s) = omega arith
not_204 id st fails stays status (not_saved n l f s) = omega arith

-- one of several devices is revoked, unless saving fails
not_turned_away :
    (id : String) (st : State) (fails : Type 0) (boss : Device) (status : ℕ)
    → id ≢ ""
    → find (has_id id) st.devices ≡ some boss
    → 1 < length st.devices
    → (fails → ⊥)
    → Reason id st fails (IsLast id st) status
    → ⊥
not_turned_away id st fails boss status named found several saves (no_id e s) = named e
not_turned_away id st fails boss status named found several saves (unknown n f s) = cc (found, f)
not_turned_away id st fails boss status named found several saves (last d n f l s) =
    omega (arith, several, l.2)
not_turned_away id st fails boss status named found several saves (not_saved n l f s) = saves f

-- The handler that every paired device reaches, primary or not, revokes the only primary device while
-- another device is paired: whatever device sends the request, if the one it names is paired, no device
-- that stays is primary, and saving does not fail, the answer is 204. From then on no request of anybody
-- passes a gate for primary devices any more, whatever its handler: among them promotion and shutdown.
pub deletion_may_strand :
    (hash : String → String) (env : Env) (ctx : Context) (r : Request) (s : App) (boss : Device)
    → r.path_id ≢ ""
    → find (has_id r.path_id) s.store.state.devices ≡ some boss
    → 1 < length s.store.state.devices
    → has_primary (remove_first r.path_id s.store.state.devices) ≡ false
    → (SaveFails (remove r.path_id) env.faults s.store → ⊥)
    → let (answer, t) = handle_device_delete env ctx r s in
      (answer.status ≡ 204)
      × ((next : Handler App) (env' : Env) (ctx' : Context) (r' : Request)
          → Refused app_store hash r' t
              (require_device app_store hash (require_primary next) env' ctx' r' t))
deletion_may_strand hash env ctx r s boss named found several none_left saves =
    elim (handle_device_delete_lem env ctx r s) [
      | inl n ↦ absurd (
          not_turned_away r.path_id s.store.state (SaveFails (remove r.path_id) env.faults s.store)
            boss (handle_device_delete env ctx r s).0.status named found several saves n.reason)
      | inr y ↦ (
        y.status,
        λ next env' ctx' r'.
            nobody_leads hash (handle_device_delete env ctx r s).1
              (ap (λ (st : State). has_primary st.devices) y.state ∙ none_left) next env' ctx' r',
      )
    ]
