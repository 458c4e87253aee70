-- ===== src/Server/Pairing/Tests.antt =====
-- Pairing at concrete requests.
use a6_core.Prelude.{String, ◌≡◌, refl, ◌⊎◌, some, []}
use a6_core.Samples.{hash, two_devices, app_of, env, context, request, calm}
use a6_core.State.Types.{Device}
use a6_core.Http.{pair_request, paired, Request}
use a6_core.Auth.Device.{validate_device_key}
use a6_core.Auth.RateLimit.{allow}
use a6_core.Auth.Pairing.{redeem}
use a6_core.State.Store.{update}
use a6_core.State.Disk.Save.{save_locked, save_body}
use a6_core.State.Disk.Calls.{perform, atomically, attempt}
use a6_core.Server.Pairing.{handle_pair, new_device, add_device}
use a6_core.Server.Pairing.Outcomes.{NotPaired, Accepts, Paired, handle_pair_lem}
use a6_core.Server.Pairing.Roundtrip.{paired_key_works}

abbrev asks : Request
asks = request "" "" (pair_request "T" "Tablet")

handle_pair_lem_example :
    let result = handle_pair hash env context asks (app_of two_devices) in
    NotPaired two_devices [] result
    ⊎ ((name : String) × Accepts hash env asks (app_of two_devices) name
        × Paired hash env asks two_devices [] name result)
handle_pair_lem_example = handle_pair_lem hash env context asks (app_of two_devices)

answered :
    (handle_pair hash env context asks (app_of two_devices)).0
    ≡ record { status = 200; answer = paired "d3" "k3" "Project A6" }
unfolding handle_pair new_device add_device allow redeem update save_locked save_body perform
    atomically attempt
answered = refl

paired_key_works_example :
    (d : Device) × ((validate_device_key hash "k3" 500 501 calm
        (handle_pair hash env context asks (app_of two_devices)).1.store).0
      ≡ some d)
    × (d.id ≡ "d3")
paired_key_works_example =
    paired_key_works hash env context asks (app_of two_devices) "d3" "k3" "Project A6" 500 501 calm
      answered (refl, (refl, tt))
