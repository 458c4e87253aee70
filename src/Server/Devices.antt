-- ===== src/Server/Devices.antt =====
-- internal/server/device_handlers.go.
pub mod Effects
pub mod Primary
pub mod Revocation
mod Tests
use a6_core.Prelude.{
  ℕ, zero, suc, String, Bool, true, false, Option, none, some, List, [], ◌∷◌, ◌==◌, find, leb,
  length, if◌then◌else◌,
}
use a6_core.State.Types.{Device, State}
use a6_core.State.Store.{
  Store, Outcome, commit, abort, Updated, done, refused, unsaved, update, snapshot,
}
use a6_core.Http.{
  Request, Response, Answer, json_error, plain, device, devices, Env, Context, Handler,
}
use a6_core.Events.{Event}
use a6_core.Server.App.{App, publish}

abbrev answer_me : Option Device → Response
answer_me none = json_error 500 "no_device_context"
answer_me (some d) = record { status = 200; answer = device d }

-- `handleMe`
unfoldable handle_me : Handler App
handle_me env ctx r s = (answer_me ctx.device, s)

-- `handleDevicesList`
unfoldable handle_devices_list : Handler App
handle_devices_list env ctx r s =
    (record { status = 200; answer = devices (snapshot s.store).devices }, s)

abbrev pub has_id : String → Device → Bool
has_id id d = d.id == id

-- the loop of `handleDevicePromote`: the first device with the id becomes primary
abbrev pub promote_first : String → List Device → List Device
promote_first id [] = []
promote_first id (d ∷ ds) =
    if has_id id d then record d { is_primary = true } ∷ ds else d ∷ promote_first id ds

abbrev pub name_of_found : Option Device → Option String
name_of_found none = none
name_of_found (some d) = some d.name

-- the function given to `Update`; it captures the name of the device, if there is one
unfoldable pub promote : String → State → Outcome Unit (Option String)
promote id st =
    commit (name_of_found (find (has_id id) st.devices))
      (record st { devices = promote_first id st.devices })

abbrev pub device_event : String → String → String → Event
device_event event id name = record {
  event = event;
  fields = ("device_id", id) ∷ ("device_name", name) ∷ [];
}

abbrev pub answer_change :
    {E : Type 0} → String → String → App → Updated E (Option String) × Store → Response × App
answer_change event id s (done (some name), t) =
    (plain 204, publish (device_event event id name) (record s { store = t }))
answer_change event id s (done none, t) =
    (json_error 404 "device_not_found", record s { store = t })
answer_change event id s (_, t) = (json_error 500 "save_failed", record s { store = t })

-- `handleDevicePromote`
unfoldable pub handle_device_promote : Handler App
handle_device_promote env ctx r s =
    if r.path_id == ""
    then (json_error 400 "missing_id", s)
    else answer_change "device.promoted" r.path_id s (update (promote r.path_id) env.faults s.store)

-- `append(st.Devices[:idx], st.Devices[idx+1:]...)` at the first device with the id
abbrev pub remove_first : String → List Device → List Device
remove_first id [] = []
remove_first id (d ∷ ds) = if has_id id d then ds else d ∷ remove_first id ds

pub data LastDevice : Type 0 where
  last_device : LastDevice

abbrev pub remove_found : String → State → Option Device → Outcome LastDevice (Option String)
remove_found id st none = commit none st
remove_found id st (some d) =
    if leb (length st.devices) 1
    then abort last_device
    else commit (some d.name) (record st { devices = remove_first id st.devices })

-- the function given to `Update`; it captures the name of the device, if there is one
unfoldable pub remove : String → State → Outcome LastDevice (Option String)
remove id st = remove_found id st (find (has_id id) st.devices)

abbrev pub answer_removed :
    String → App → Updated LastDevice (Option String) × Store → Response × App
answer_removed id s (refused last_device, t) =
    (json_error 409 "last_device", record s { store = t })
answer_removed id s u = answer_change "device.revoked" id s u

-- `handleDeviceDelete`
unfoldable pub handle_device_delete : Handler App
handle_device_delete env ctx r s =
    if r.path_id == ""
    then (json_error 400 "missing_id", s)
    else answer_removed r.path_id s (update (remove r.path_id) env.faults s.store)
