-- ===== src/Server/Pairing/Roundtrip.antt =====
-- The key that a pairing answers is the key of the device that it added.
use a6_core.Prelude.{
  ℕ, String, ◌≡◌, refl, ◌∙◌, ap, Bool, true, false, some, List, [], ◌∷◌, ◌++◌, All, find, eq_refl,
  inl, inr,
}
use a6_core.State.Types.{Device, State}
use a6_core.State.Disk.Calls.{Faults}
use a6_core.State.Store.{Store}
use a6_core.Auth.Device.{matches, validated, validate_device_key}
use a6_core.Http.{Request, Response, paired, Env, Context}
use a6_core.Server.App.{App}
use a6_core.Server.Pairing.{new_device, handle_pair}
use a6_core.Server.Pairing.Outcomes.{led_by, handle_pair_lem}

find_last :
    (p : Device → Bool) (ds : List Device) (d : Device)
    → All (λ x. p x ≡ false) ds
    → p d ≡ true
    → find p (ds ++ d ∷ []) ≡ some d
find_last p [] d a h = rw h
find_last p (x ∷ ds) d a h = rw a.0 (find_last p ds d a.1 h)

module _ (hash : String → String) where
  validate_added :
      (s : Store) (ds : List Device) (d : Device) (key : String) (now stamp : ℕ) (faults : Faults)
      → s.state.devices ≡ ds ++ d ∷ []
      → All (λ x. matches hash key x ≡ false) ds
      → matches hash key d ≡ true
      → (validate_device_key hash key now stamp faults s).0 ≡ some d
  unfolding validate_device_key
  validate_added s ds d key now stamp faults e a h =
      rw (ap (find (matches hash key)) e ∙ find_last (matches hash key) ds d a h, validated)

  led_by_new_id :
      (env : Env) (r : Request) (name k : String) (ds : List Device)
      → (led_by ds (new_device hash env r name k)).id ≡ env.new_id
  unfolding new_device
  led_by_new_id env r name k [] = refl
  led_by_new_id env r name k (x ∷ ds) = refl

  new_key_matches :
      (env : Env) (r : Request) (name k key : String) (ds : List Device)
      → k ≡ key
      → matches hash key (led_by ds (new_device hash env r name k)) ≡ true
  unfolding new_device
  new_key_matches env r name k key [] e = rw e (eq_refl (hash key))
  new_key_matches env r name k key (x ∷ ds) e = rw e (eq_refl (hash key))

  -- The key that a successful pairing answers authenticates, at any later time, the device that it
  -- added, if no device paired before has a key with the same hash.
  pub paired_key_works :
      (env : Env) (ctx : Context) (r : Request) (s : App) (id key core : String) (now stamp : ℕ)
      (faults : Faults)
      → (handle_pair hash env ctx r s).0 ≡ record { status = 200; answer = paired id key core }
      → All (λ x. matches hash key x ≡ false) s.store.state.devices
      → (d : Device) × ((validate_device_key hash key now stamp faults
            (handle_pair hash env ctx r s).1.store).0
          ≡ some d)
        × (d.id ≡ id)
  paired_key_works env ctx r s id key core now stamp faults e a =
      elim (handle_pair_lem hash env ctx r s) [
        | inl n ↦ absurd (n.status (ap (λ (x : Response). x.status) e))
        | inr (name, _, y) ↦
            let ds = s.store.state.devices in
            let d = new_device hash env r name y.key in
            let k : y.key ≡ key = cc (e, y.answered) in
            let i : env.new_id ≡ id = cc (e, y.answered) in
            (
              led_by ds d,
              validate_added (handle_pair hash env ctx r s).1.store ds (led_by ds d) key now stamp
                  faults (ap (λ (st : State). st.devices) y.added) a
                  (new_key_matches env r name y.key key ds k),
              led_by_new_id env r name y.key ds ∙ i,
            )
      ]
