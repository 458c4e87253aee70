-- ===== src/Server/GameServers.antt =====
-- internal/server/server_handlers.go, over the manager of internal/servers/servers.go.
pub mod Outcomes
mod Tests
use a6_core.Prelude.{
  ℕ, ◌⊎◌, inl, inr, String, Bool, true, false, Option, none, some, List, [], ◌∷◌, ◌++◌, ◌&&◌, map,
  if◌then◌else◌,
}
use a6_core.Servers.Manager.{
  Status, ServerError, not_found, already_running, stop_in_progress, not_running, start_failed,
  Result, ok, err, Server, RuntimeMap, list_servers, get_server,
}
use a6_core.Servers.Stopping.{start, stop, force_restart_stop}
use a6_core.Http.{
  Request, Response, Answer, Body, malformed, force_request, switch_request, json_error, plain, Env,
  Context, Handler,
}

-- the manager's runtime state, the statuses that it gave to its callback, the last one first, and the
-- servers for which it began a stop sequence
pub record Api : Type 0 where
  pub runtime : RuntimeMap
  pub notified : List (String × Status)
  pub launched : List String

-- `writeServerError`
unfoldable pub write_server_error : ServerError → Response
write_server_error not_found = json_error 404 "server_not_found"
write_server_error already_running = json_error 409 "already_running"
write_server_error not_running = json_error 409 "not_running"
write_server_error stop_in_progress = json_error 409 "stop_in_progress"
write_server_error start_failed = json_error 500 "server_action_failed"

-- what a request that only reads is answered
data ServerAnswer : Type 0 where
  listing : List Server → ServerAnswer
  server : Server → ServerAnswer
  failure : Response → ServerAnswer

-- `handleList`
unfoldable handle_list : Api → ServerAnswer
handle_list s = listing (list_servers s.runtime)

abbrev answer_get : Result Server → ServerAnswer
answer_get (ok srv) = server srv
answer_get (err e) = failure (write_server_error e)

-- `handleGet`
unfoldable handle_get : Request → Api → ServerAnswer
handle_get r s = answer_get (get_server r.path_id s.runtime)

abbrev notify_all : String → List Status → List (String × Status) → List (String × Status)
notify_all id [] log = log
notify_all id (status ∷ rest) log = notify_all id rest ((id, status) ∷ log)

abbrev pub answer_start : String → Api → Result Server × RuntimeMap × List Status → Response × Api
answer_start id s (ok srv, m, statuses) =
    (plain 202, record s { runtime = m; notified = notify_all id statuses s.notified })
answer_start id s (err e, m, statuses) =
    (write_server_error e, record s { runtime = m; notified = notify_all id statuses s.notified })

-- `handleStart`; `runs` is whether the executor starts the server
unfoldable pub handle_start : Bool → Request → Api → Response × Api
handle_start runs r s = answer_start r.path_id s (start runs r.path_id s.runtime)

abbrev pub forces : Body → Bool
forces (force_request b) = b
forces (switch_request target b) = b
forces _ = false

abbrev pub answer_stop : String → Api → Result Unit × RuntimeMap × List Status → Response × Api
answer_stop id s (ok x, m, statuses) = (
  plain 202,
  record s {
    runtime = m;
    notified = notify_all id statuses s.notified;
    launched = id ∷ s.launched;
  },
)
answer_stop id s (err e, m, statuses) =
    (write_server_error e, record s { runtime = m; notified = notify_all id statuses s.notified })

abbrev pub is_stop_in_progress : Result Unit → Bool
is_stop_in_progress (err stop_in_progress) = true
is_stop_in_progress _ = false

abbrev stop_or_force : Bool → String → RuntimeMap → Result Unit × RuntimeMap × List Status
stop_or_force force id m =
    let tried = stop id m in
    if is_stop_in_progress tried.0 && force then force_restart_stop id tried.1 else tried

-- `handleStop`
unfoldable pub handle_stop : Request → Api → Response × Api
handle_stop r s = answer_stop r.path_id s (stop_or_force (forces r.body) r.path_id s.runtime)
