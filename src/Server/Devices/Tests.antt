-- ===== src/Server/Devices/Tests.antt =====
-- Promotion and revocation at concrete requests.
use a6_core.Prelude.{◌≢◌, ne_of_test, arith, String, ◌≡◌, refl, ◌⊎◌, inr, none, []}
use a6_core.Samples.{hash, shell, two_devices, app_of, env, context, request, calm}
use a6_core.State.Store.{update}
use a6_core.State.Disk.Save.{
  save_locked, save_body, keep_backup, copy_file, copy_body, remove_temp, remove_backup_temp,
}
use a6_core.State.Disk.Calls.{perform, atomically, attempt}
use a6_core.Http.{malformed, Request, Handler, Env, Context}
use a6_core.Auth.Device.{validate_device_key}
use a6_core.Auth.Middleware.{require_device, require_primary}
use a6_core.Auth.Middleware.Gates.{Refused}
use a6_core.Server.App.{App, app_store}
use a6_core.Server.Pairing.{handle_pair}
use a6_core.Server.Devices.{handle_device_delete, handle_device_promote, remove}
use a6_core.State.Store.Atomicity.{SaveFails}
use a6_core.Server.Devices.Effects.{IsLast, TurnedAway, Revoked, handle_device_delete_lem}
use a6_core.Server.Devices.Primary.{Led, pairing_and_promotion-Led, deletion_may_strand}
use a6_core.Server.Devices.Revocation.{revoked_key_rejected}

abbrev about : String → Request
about id = request "Bearer k2" id malformed

abbrev app : App
app = app_of two_devices

handle_device_delete_lem_example :
    TurnedAway "d1" two_devices
      (SaveFails (remove "d1") env.faults app.store)
      (IsLast "d1" two_devices)
      []
      (handle_device_delete env context (about "d1") app)
    ⊎ Revoked "d1" two_devices [] (handle_device_delete env context (about "d1") app)
handle_device_delete_lem_example = handle_device_delete_lem env context (about "d1") app

pairing_and_promotion-Led_example :
    Led (handle_pair hash env context (about "d2") app).1.store.state.devices
    × Led (handle_device_promote env context (about "d2") app).1.store.state.devices
pairing_and_promotion-Led_example =
    pairing_and_promotion-Led hash env context (about "d2") app (inr refl)

-- the phone, a guest, revokes the shell, the only primary device
guest_revokes : (handle_device_delete env context (about "d1") app).0.status ≡ 204
unfolding handle_device_delete remove update save_locked save_body keep_backup copy_file copy_body
    remove_temp remove_backup_temp perform atomically attempt
guest_revokes = refl

d1_named : ◌≢◌ {A = String} "d1" ""
d1_named = ne_of_test "d1" "" refl

-- no call fails, so the state is saved
saved_well : (SaveFails (remove "d1") env.faults app.store) → ⊥
unfolding remove update save_locked save_body keep_backup copy_file copy_body remove_temp
    remove_backup_temp perform atomically attempt
saved_well (e, h) = cc h

deletion_may_strand_example :
    let (answer, t) = handle_device_delete env context (about "d1") app in
    (answer.status ≡ 204)
    × ((next : Handler App) (env' : Env) (ctx' : Context) (r' : Request)
        → Refused app_store hash r' t
            (require_device app_store hash (require_primary next) env' ctx' r' t))
deletion_may_strand_example =
    deletion_may_strand hash env context (about "d1") app shell d1_named refl (omega arith) refl
      saved_well

revoked_key_rejected_example :
    validate_device_key hash "k1" 500 501 calm
      (handle_device_delete env context (about "d1") app).1.store
    ≡ (none, (handle_device_delete env context (about "d1") app).1.store)
revoked_key_rejected_example =
    revoked_key_rejected hash "k1" env context (about "d1") app shell 500 501 calm
      ((refl, tt), (tt, tt)) refl refl guest_revokes
