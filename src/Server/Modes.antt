-- ===== src/Server/Modes.antt =====
-- internal/server/mode_handlers.go.
pub mod Outcomes
pub mod Checker
mod Tests
use a6_core.Prelude.{String, Bool, true, false, Option, none, some, List, [], ◌∷◌, length}
use a6_core.State.Disk.Calls.{Faults}
use a6_core.State.Store.{Store}
use a6_core.Servers.Manager.{BlockingResource}
use a6_core.Modes.{
  SwitchError, invalid_mode, executor_failed, not_persisted, blocked, Switched, switch, current,
  all_modes,
}
use a6_core.Http.{
  Request, Response, Method, get, post, Body, malformed, pair_request, switch_request,
  force_request, busy, switched, json_error, plain, Env,
}
use a6_core.Events.{Event}
use a6_core.Server.App.{App, publish}

-- `handleGet` of /v1/modes: the current mode, the available ones, and no transition
unfoldable handle_modes_get : App → String × List String × Bool
handle_modes_get s = (current s.store, all_modes, false)

abbrev answer_failed : SwitchError → Response
answer_failed invalid_mode = plain 422
answer_failed (blocked bs) = record { status = 409; answer = busy (length bs) }
answer_failed _ = plain 500

abbrev pub mode_event : String → String → Event
mode_event from target = record {
  event = "mode.changed";
  fields = ("from", from) ∷ ("to", target) ∷ [];
}

-- the answer, with the transitions that were asked of the executor
abbrev pub answer_switch : String → App → Option SwitchError → Switched → Store → Response × App
answer_switch target s none w t = (
  record { status = 202; answer = switched w.from target },
  publish (mode_event w.from target) (record s { store = t }),
)
answer_switch target s (some e) w t = (answer_failed e, record s { store = t })

-- `json.Decode` into a `switchRequest`: a field that is not there is empty
abbrev pub decode_switch : Body → Option (String × Bool)
decode_switch malformed = none
decode_switch (switch_request target force) = some (target, force)
decode_switch (force_request force) = some ("", force)
decode_switch _ = some ("", false)

abbrev pub post_decoded :
    List BlockingResource → Bool → Faults → Option (String × Bool) → App → Response × App
post_decoded blocking obeys faults none s = (plain 400, s)
post_decoded blocking obeys faults (some (target, force)) s =
    let (w, t) = switch blocking obeys faults target force s.store in
    answer_switch target s w.error w t

-- `handlePost` of /v1/modes
unfoldable pub handle_modes_post :
    List BlockingResource → Bool → Env → Request → App → Response × App
handle_modes_post blocking obeys env r s =
    post_decoded blocking obeys env.faults (decode_switch r.body) s
