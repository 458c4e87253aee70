-- ===== src/Server/System.antt =====
-- internal/system/system.go, and the handlers of internal/server that need no manager of their own:
-- system_handlers.go, display_handlers.go, handlers.go, and `handleHealth` and `handleInfo` of server.go.
pub mod Actions
mod Tests
use a6_core.Prelude.{ℕ, String, Bool, true, false, Option, none, some, List, [], ◌∷◌, length, refl}
use a6_core.State.Types.{State}
use a6_core.State.Disk.Calls.{Faults}
use a6_core.State.Disk.Save.{SaveError}
use a6_core.State.Store.{Store, snapshot, save}
use a6_core.Servers.Manager.{BlockingResource}
use a6_core.Auth.Middleware.{HasStore}
use a6_core.Events.{Event}
use a6_core.Http.{Method, get, post, Request, Response, busy, plain, Context, Env, Handler}
use a6_core.Server.App.{App, publish}
use a6_core.Server.GameServers.{forces}

pub data SystemAct : Type 0 where
  reboot power_off : SystemAct

-- what the executor answers; nothing in the repository makes one answer that it is blocked
pub data ActResult : Type 0 where
  acted act_failed : ActResult
  act_blocked : List BlockingResource → ActResult

-- the server, and what the executor was asked to do, the last act first
pub record Machine : Type 0 where
  pub app : App
  pub asked : List SystemAct

abbrev pub machine_store : HasStore Machine
machine_store = record {
  store = λ m. m.app.store;
  with_store = λ m t. record m { app = record (m.app) { store = t } };
  store-with_store = λ m t. refl;
  with_store_same = λ m. refl;
}

abbrev pub ask : SystemAct → Machine → Machine
ask act m = record m { asked = act ∷ m.asked }

-- `Reboot` and `PowerOff`; neither looks at `force`
abbrev pub manager_reboot : ActResult → Bool → Machine → ActResult × Machine
manager_reboot result force m = (result, ask reboot m)

abbrev pub manager_power_off : ActResult → Bool → Machine → ActResult × Machine
manager_power_off result force m = (result, ask power_off m)

abbrev pub answer_act : ActResult → Response
answer_act acted = plain 202
answer_act (act_blocked bs) = record { status = 409; answer = busy (length bs) }
answer_act act_failed = plain 500

abbrev pub answered : ActResult × Machine → Response × Machine
answered (result, m) = (answer_act result, m)

-- `handleAction`; a body that is no JSON leaves `force` false
unfoldable pub handle_action :
    (Bool → Machine → ActResult × Machine) → Request → Method → Machine → Response × Machine
handle_action action r post m = answered (action (forces r.body) m)
handle_action action r _ m = (plain 405, m)

-- `handleReboot`
unfoldable pub handle_reboot : ActResult → Handler Machine
handle_reboot result env ctx r m = handle_action (manager_reboot result) r r.method m

-- `handleShutdown`
unfoldable pub handle_shutdown : ActResult → Handler Machine
handle_shutdown result env ctx r m = handle_action (manager_power_off result) r r.method m

-- `Info`
abbrev system_info : List (String × Bool)
system_info =
    ("reboot_supported", true) ∷ ("poweroff_supported", true) ∷ ("suspend_supported", false) ∷ []

-- the features, or the status of a failure
data InfoAnswer : Type 0 where
  features : List (String × Bool) → InfoAnswer
  info_failed : ℕ → InfoAnswer

-- `handleInfo` of /v1/system/info
unfoldable handle_system_info : Method → InfoAnswer
handle_system_info get = features system_info
handle_system_info _ = info_failed 405

-- `handleDisplaySleep`
unfoldable pub handle_display_sleep : Handler Machine
handle_display_sleep env ctx r m = (
  plain 202,
  record m { app = publish (record { event = "display.sleep_requested"; fields = [] }) m.app },
)

-- `handleHealth`
unfoldable handle_health : Handler Machine
handle_health env ctx r m = (plain 200, m)

-- what `handleInfo` of /v1/info answers
record CoreInfo : Type 0 where
  core_id : String
  core_name : String
  devices : ℕ
  shortcuts : ℕ
  servers : ℕ

-- `handleInfo` of /v1/info
unfoldable handle_info : Machine → CoreInfo
handle_info m =
    let snap = snapshot m.app.store in
    record {
      core_id = snap.core_id;
      core_name = snap.core_name;
      devices = length snap.devices;
      shortcuts = length snap.shortcuts;
      servers = length snap.servers;
    }

-- what a request for the state is answered
pub data StateAnswer : Type 0 where
  the_state : State → StateAnswer
  saved_status : StateAnswer
  state_failed : ℕ → StateAnswer

abbrev pub answer_save : Machine → Option SaveError × Store → StateAnswer × Machine
answer_save m (none, t) = (saved_status, record m { app = record (m.app) { store = t } })
answer_save m (some e, t) = (state_failed 500, record m { app = record (m.app) { store = t } })

-- `handleState`
unfoldable pub handle_state : Faults → Method → Machine → StateAnswer × Machine
handle_state faults get m = (the_state (snapshot m.app.store), m)
handle_state faults post m = answer_save m (save faults m.app.store)
handle_state faults _ m = (state_failed 405, m)
