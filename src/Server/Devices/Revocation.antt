-- ===== src/Server/Devices/Revocation.antt =====
-- A revoked device is locked out.
use a6_core.Prelude.{
  ℕ, String, ◌≡◌, sym, ◌∙◌, subst, inl, inr, true, false, none, some, List, [], ◌∷◌, arith, ◌==◌,
  find, All, Bool-cases, eq_iff,
}
use a6_core.State.Types.{Device, State}
use a6_core.State.Disk.Calls.{Faults}
use a6_core.Auth.Device.{matches, validate_device_key}
use a6_core.Auth.Device.Laws.{not_FirstWith, validate_device_key_lem}
use a6_core.Http.{Request, Env, Context}
use a6_core.Server.App.{App}
use a6_core.Server.Devices.{has_id, remove, remove_first, handle_device_delete}
use a6_core.State.Store.Atomicity.{SaveFails}
use a6_core.Server.Devices.Effects.{IsLast, handle_device_delete_lem}
use a6_core.Server.Devices.Primary.{not_204}

-- No two devices have the same hash of a key.
abbrev DistinctKeys : List Device → Type 0
DistinctKeys [] = Unit
DistinctKeys (d ∷ ds) =
    All (λ (x : Device). (d.key_hash == x.key_hash) ≡ false) ds × DistinctKeys ds

differs_from_found :
    (id h : String) (ds : List Device) (d : Device)
    → All (λ (x : Device). (h == x.key_hash) ≡ false) ds
    → find (has_id id) ds ≡ some d
    → (h == d.key_hash) ≡ false
differs_from_found id h [] d a f = absurd (cc)
differs_from_found id h (x ∷ ds) d a f = ground (arith, differs_from_found id h ds d a.1)

found_later :
    (id : String) (ds : List Device) (x d : Device)
    → has_id id x ≡ false
    → find (has_id id) (x ∷ ds) ≡ some d
    → find (has_id id) ds ≡ some d
found_later id ds x d later f = ground arith

same_key :
    (id : String) (ds : List Device) (x d : Device)
    → has_id id x ≡ true
    → find (has_id id) (x ∷ ds) ≡ some d
    → x.key_hash ≡ d.key_hash
same_key id ds x d here f = ground arith

module _ (hash : String → String) (key : String) where
  abbrev Unmatched : List Device → Type 0
  Unmatched = All (λ x. matches hash key x ≡ false)

  transport_tests :
      (h : String) (ds : List Device)
      → hash key ≡ h
      → All (λ (x : Device). (h == x.key_hash) ≡ false) ds
      → Unmatched ds
  transport_tests h ds e = subst (λ g. All (λ (x : Device). (g == x.key_hash) ≡ false) ds) (sym e)

  remove_first-Unmatched :
      (id : String) (ds : List Device) (d : Device)
      → DistinctKeys ds
      → find (has_id id) ds ≡ some d
      → hash key ≡ d.key_hash
      → Unmatched (remove_first id ds)
  remove_first-Unmatched id [] d k f e = tt
  remove_first-Unmatched id (x ∷ ds) d k f e = elim (Bool-cases (has_id id x)) [
    | inl here ↦ rw here (transport_tests x.key_hash ds (e ∙ sym (same_key id ds x d here f)) k.0)
    | inr later ↦ rw later (
      ground (
        arith,
        eq_iff (hash key) x.key_hash,
        eq_iff x.key_hash d.key_hash,
        differs_from_found id x.key_hash ds d k.0 (found_later id ds x d later f),
      ),
      remove_first-Unmatched id ds d k.1 (found_later id ds x d later f) e,
    )
  ]

  -- Once the revocation of a device is answered with 204, its key is turned away at any later time,
  -- if no two devices had the same hash of a key.
  pub revoked_key_rejected :
      (env : Env) (ctx : Context) (r : Request) (s : App) (d : Device) (now stamp : ℕ)
      (faults : Faults)
      → DistinctKeys s.store.state.devices
      → find (has_id r.path_id) s.store.state.devices ≡ some d
      → hash key ≡ d.key_hash
      → (handle_device_delete env ctx r s).0.status ≡ 204
      → let t = (handle_device_delete env ctx r s).1 in
        validate_device_key hash key now stamp faults t.store ≡ (none, t.store)
  revoked_key_rejected env ctx r s d now stamp faults k f e ok =
      let t = (handle_device_delete env ctx r s).1 in
      let st = s.store.state in
      elim (handle_device_delete_lem env ctx r s) [
        | inl n ↦ absurd (
            not_204 r.path_id st (SaveFails (remove r.path_id) env.faults s.store)
              (IsLast r.path_id st) (handle_device_delete env ctx r s).0.status n.reason ok)
        | inr y ↦
            let none_left : Unmatched t.store.state.devices =
              subst (λ (x : State). Unmatched x.devices) (sym y.state)
                (remove_first-Unmatched r.path_id st.devices d k f e) in
            elim (validate_device_key_lem hash key now stamp faults t.store) [
              | inl (v, _) ↦ v
              | inr (x, _, w, _) ↦
                  absurd (not_FirstWith (matches hash key) t.store.state.devices x none_left w)
            ]
      ]
