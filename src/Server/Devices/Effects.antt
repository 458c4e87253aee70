-- ===== src/Server/Devices/Effects.antt =====
-- What a promotion and a revocation do on each branch.
use a6_core.Prelude.{
  ℕ, ◌≤◌, ◌<◌, String, ◌≡◌, refl, ap, ◌⊎◌, inl, inr, Option, none, some, List, [], ◌∷◌, arith, ◌==◌,
  find, length, Bool-cases, eq_of_test, ne_of_test, ◌≢◌, sym, ◌∙◌, leb, true, if◌then◌else◌,
}
use a6_core.State.Types.{Device, State}
use a6_core.State.Disk.Crash.{saved}
use a6_core.State.Disk.Calls.{Faults}
use a6_core.State.Store.{Store, commit, abort, Updated, done, refused, unsaved, update}
use a6_core.State.Store.Atomicity.{SaveFails, Transacts, update-Transacts, update-abort}
use a6_core.Http.{Request, Response, Env, Context}
use a6_core.Events.{Event}
use a6_core.Server.App.{App}
use a6_core.Server.Devices.{
  has_id, promote_first, name_of_found, promote, answer_change, handle_device_promote, remove_first,
  remove_found, LastDevice, last_device, remove, answer_removed, device_event, handle_device_delete,
}

-- why a request about a device was turned away: `fails` is what a failed save of the change shows, and
-- `stays` that the change may not be made
pub data Reason (id : String) (st : State) (fails stays : Type 0) (status : ℕ) : Type 0 where
  no_id : id ≡ "" → status ≡ 400 → Reason id st fails stays status
  unknown :
      id ≢ "" → find (has_id id) st.devices ≡ none → status ≡ 404 → Reason id st fails stays status
  last :
      (d : Device)
      → id ≢ ""
      → find (has_id id) st.devices ≡ some d
      → stays
      → status ≡ 409
      → Reason id st fails stays status
  not_saved : id ≢ "" → (stays → ⊥) → fails → status ≡ 500 → Reason id st fails stays status

-- An answer with a reason, no change of the state and no event.
pub record TurnedAway (id : String) (st : State) (fails stays : Type 0) (log : List Event)
    (result : Response × App) : Type 0 where
  pub reason : Reason id st fails stays result.0.status
  pub state : result.1.store.state ≡ st
  pub published : result.1.published ≡ log

-- The device with the id is gone, in memory and in the file, and that was announced.
pub record Revoked (id : String) (st : State) (log : List Event) (result : Response × App)
    : Type 0 where
  pub device : Device
  pub found : find (has_id id) st.devices ≡ some device
  pub named : id ≢ ""
  pub several : 1 < length st.devices
  pub status : result.0.status ≡ 204
  pub state : result.1.store.state ≡ record st { devices = remove_first id st.devices }
  pub durable : result.1.store.disk.primary ≡ saved result.1.store.state
  pub announced : result.1.published ≡ device_event "device.revoked" id device.name ∷ log

-- The device is there, and it is the only one.
abbrev pub IsLast : String → State → Type 0
IsLast id st = (d : Device) × (find (has_id id) st.devices ≡ some d) × (length st.devices ≤ 1)

abbrev DeleteEnds : Type 0 → String → App → Response × App → Type 0
DeleteEnds fails id s result =
    TurnedAway id s.store.state fails (IsLast id s.store.state) s.published result
    ⊎ Revoked id s.store.state s.published result

module _ (id : String) (faults : Faults) (s : App) (named : id ≢ "") where
  abbrev Fails : Type 0
  Fails = SaveFails (remove id) faults s.store

  -- the only device is not removed
  last_aborts :
      (u : Updated LastDevice (Option String) × Store)
      → IsLast id s.store.state
      → update (remove id) faults s.store ≡ u
      → ((x : Store) → u ≡ (refused last_device, x) → ⊥)
      → ⊥
  unfolding remove
  last_aborts u (d, f, few) p other =
      let one : leb (length s.store.state.devices) 1 ≡ true = ground (arith, few) in
      other s.store (
        sym p
        ∙ update-abort (remove id) faults s.store last_device (
            ap (remove_found id s.store.state) f
            ∙ ap
                (λ b.
                  if b
                  then abort last_device
                  else commit (some d.name)
                      (record (s.store.state) { devices = remove_first id s.store.state.devices }))
                one))

  -- with the device found
  removed_found :
      (d : Device) (u : Updated LastDevice (Option String) × Store)
      → find (has_id id) s.store.state.devices ≡ some d
      → update (remove id) faults s.store ≡ u
      → Transacts s.store (remove_found id s.store.state (some d)) u
      → DeleteEnds Fails id s (answer_removed id s u)
  removed_found d (refused last_device, t) f p h = inl (record {
    reason = last d named f (d, f, ground arith) refl;
    state = ap (λ (x : Store). x.state) h.1;
    published = refl;
  })
  removed_found d (unsaved e, t) f p h = inl (record {
    reason =
        not_saved named (λ last. last_aborts (unsaved e, t) last p (λ x same. cc same))
          (e, ap (λ u. u.0) p) refl;
    state = h.0;
    published = refl;
  })
  removed_found d (done none, t) f p h = absurd (ground arith)
  removed_found d (done (some name), t) f p h = inr (record {
    device = d;
    found = f;
    named = named;
    several = ground arith;
    status = refl;
    state = ground arith;
    durable = h.1;
    announced = ground arith;
  })

  removed_unknown :
      (u : Updated LastDevice (Option String) × Store)
      → find (has_id id) s.store.state.devices ≡ none
      → update (remove id) faults s.store ≡ u
      → Transacts s.store (remove_found id s.store.state none) u
      → DeleteEnds Fails id s (answer_removed id s u)
  removed_unknown (refused last_device, t) f p h = absurd (cc (h.0))
  removed_unknown (unsaved e, t) f p h = inl (record {
    reason = not_saved named (λ (d, g, l). cc (f, g)) (e, ap (λ u. u.0) p) refl;
    state = h.0;
    published = refl;
  })
  removed_unknown (done none, t) f p h =
      inl (record { reason = unknown named f refl; state = ground arith; published = refl })
  removed_unknown (done (some name), t) f p h = absurd (cc (h.0))

  removed :
      (o : Option Device) (u : Updated LastDevice (Option String) × Store)
      → find (has_id id) s.store.state.devices ≡ o
      → update (remove id) faults s.store ≡ u
      → Transacts s.store (remove_found id s.store.state o) u
      → DeleteEnds Fails id s (answer_removed id s u)
  removed none u = removed_unknown u
  removed (some d) u = removed_found d u

-- A revocation ends in one of two ways. It removes the first device with the id, in memory and in
-- the state file, answers 204 and announces the device by its name; then other devices are left.
-- Or it changes no state and announces nothing, with 400 for an empty id, 404 for an id that no
-- device has, 409 for the only device and 500 when saving
-- the change failed, for an id that is not that of the only device.
pub handle_device_delete_lem :
    (env : Env) (ctx : Context) (r : Request) (s : App)
    → let result = handle_device_delete env ctx r s in
      let id = r.path_id in
      TurnedAway id s.store.state
        (SaveFails (remove id) env.faults s.store)
        (IsLast id s.store.state)
        s.published
        result
      ⊎ Revoked id s.store.state s.published result
unfolding handle_device_delete remove
handle_device_delete_lem env ctx r s = elim (Bool-cases (r.path_id == "")) [
  | inl e ↦ inl (
      rw e (record {
        reason = no_id (eq_of_test r.path_id "" e) refl;
        state = refl;
        published = refl;
      }))
  | inr e ↦ rw e (
      removed r.path_id env.faults s (ne_of_test r.path_id "" e)
        (find (has_id r.path_id) s.store.state.devices)
        (update (remove r.path_id) env.faults s.store) refl refl
        (update-Transacts (remove r.path_id) env.faults s.store))
]

-- The first device with the id is primary, in memory and in the file, and that was announced.
pub record Promoted (id : String) (st : State) (log : List Event) (result : Response × App)
    : Type 0 where
  pub device : Device
  pub found : find (has_id id) st.devices ≡ some device
  pub status : result.0.status ≡ 204
  pub state : result.1.store.state ≡ record st { devices = promote_first id st.devices }
  pub durable : result.1.store.disk.primary ≡ saved result.1.store.state
  pub announced : result.1.published ≡ device_event "device.promoted" id device.name ∷ log

abbrev PromoteEnds : Type 0 → String → App → Response × App → Type 0
PromoteEnds fails id s result =
    TurnedAway id s.store.state fails ⊥ s.published result
    ⊎ Promoted id s.store.state s.published result

promote_first_unknown :
    (id : String) (ds : List Device) → find (has_id id) ds ≡ none → promote_first id ds ≡ ds
promote_first_unknown id [] h = refl
promote_first_unknown id (d ∷ ds) h = elim (Bool-cases (has_id id d)) [
  | inl e ↦ absurd (ground arith)
  | inr e ↦ rw e (ap (λ l. d ∷ l) (promote_first_unknown id ds (ground arith)))
]

promoted :
    (id : String) (faults : Faults) (s : App) (named : id ≢ "") (o : Option Device)
    (u : Updated Unit (Option String) × Store)
    → find (has_id id) s.store.state.devices ≡ o
    → update (promote id) faults s.store ≡ u
    → Transacts s.store
        (commit
          (name_of_found o)
          (record (s.store.state) { devices = promote_first id s.store.state.devices }))
        u
    → PromoteEnds
        (SaveFails (promote id) faults s.store)
        id
        s
        (answer_change "device.promoted" id s u)
promoted id faults s named o (refused x, t) f p h = absurd (cc (h.0))
promoted id faults s named o (unsaved e, t) f p h = inl (record {
  reason = not_saved named (λ x. x) (e, ap (λ u. u.0) p) refl;
  state = h.0;
  published = refl;
})
promoted id faults s named none (done none, t) f p h = inl (record {
  reason = unknown named f refl;
  state = ground (arith, promote_first_unknown id s.store.state.devices f);
  published = refl;
})
promoted id faults s named none (done (some name), t) f p h = absurd (cc (h.0))
promoted id faults s named (some d) (done none, t) f p h = absurd (cc (h.0))
promoted id faults s named (some d) (done (some name), t) f p h = inr (record {
  device = d;
  found = f;
  status = refl;
  state = ground arith;
  durable = h.1;
  announced = ground arith;
})

-- A promotion ends in one of two ways. It makes the first device with the id primary and changes
-- nothing else, in memory and in the state file, answers 204 and announces the device. Or it
-- changes no state and announces nothing, with 400 for an empty id, 404 for an id that no device
-- has and 500 when the state could not be saved.
pub handle_device_promote_lem :
    (env : Env) (ctx : Context) (r : Request) (s : App)
    → let result = handle_device_promote env ctx r s in
      TurnedAway r.path_id s.store.state
        (SaveFails (promote r.path_id) env.faults s.store)
        ⊥
        s.published
        result
      ⊎ Promoted r.path_id s.store.state s.published result
unfolding handle_device_promote promote
handle_device_promote_lem env ctx r s = elim (Bool-cases (r.path_id == "")) [
  | inl e ↦ inl (
      rw e (record {
        reason = no_id (eq_of_test r.path_id "" e) refl;
        state = refl;
        published = refl;
      }))
  | inr e ↦ rw e (
      promoted r.path_id env.faults s (ne_of_test r.path_id "" e)
        (find (has_id r.path_id) s.store.state.devices)
        (update (promote r.path_id) env.faults s.store) refl refl
        (update-Transacts (promote r.path_id) env.faults s.store))
]
