-- ===== src/Servers/Stopping.antt =====
-- internal/servers/servers.go: the critical sections of `Start`, `Stop`, `ForceRestartStopSequence`
-- and `runStopSequence`, on the runtime state of one server of the catalog, and the calls composed
-- of them. A call also answers the statuses that it notifies, in order.
use a6_core.Prelude.{String, Bool, true, false, Option, none, some, List, [], ◌∷◌, if◌then◌else◌}
use a6_core.Servers.Manager.{
  Status, stopped, starting, running, stopping, not_found, already_running, stop_in_progress,
  not_running, start_failed, Result, ok, err, Definition, find_definition, Server, Runtime,
  RuntimeMap, assign, to_server, or_idle, set_status,
}

abbrev pub is_stopped : Status → Bool
is_stopped stopped = true
is_stopped _ = false

-- `Start` up to its first unlock
unfoldable pub begin_start : Runtime → Result Runtime
begin_start rt =
    if is_stopped rt.status then ok (record rt { status = starting }) else err already_running

abbrev pub stopping_of : Runtime → Runtime
stopping_of rt = record rt { status = stopping; stop_running = true }

-- `Stop` up to its unlock
unfoldable pub begin_stop : Runtime → Result Runtime
begin_stop rt =
    if is_stopped rt.status
    then err not_running
    else if rt.stop_running
    then err stop_in_progress
    else ok (stopping_of rt)

-- `ForceRestartStopSequence` up to its unlock
unfoldable pub begin_forced_stop : Runtime → Result Runtime
begin_forced_stop rt = if is_stopped rt.status then err not_running else ok (stopping_of rt)

-- `runStopSequence` where the poll found the server stopped
unfoldable pub confirm_stopped : Runtime → Runtime
confirm_stopped rt = record rt { status = stopped; players = none }

-- the deferred function of `runStopSequence`
unfoldable pub release_stop : Runtime → Runtime
release_stop rt = record rt { stop_running = false }

abbrev pub started :
    Definition → String → RuntimeMap → Bool → Result Server × RuntimeMap × List Status
started d id m false = (err start_failed, set_status id stopped m, [])
started d id m true =
    let m' = set_status id running m in (ok (to_server d (or_idle (m' id))), m', running ∷ [])

abbrev start_begun :
    Definition
    → String
    → RuntimeMap
    → Bool
    → Result Runtime
    → Result Server × RuntimeMap × List Status
start_begun d id m runs (err e) = (err e, m, [])
start_begun d id m runs (ok rt) = started d id (assign id rt m) runs

abbrev pub start_defined :
    String → RuntimeMap → Bool → Option Definition → Result Server × RuntimeMap × List Status
start_defined id m runs none = (err not_found, m, [])
start_defined id m runs (some d) = start_begun d id m runs (begin_start (or_idle (m id)))

-- `Start`, uninterrupted; `runs` is whether `executor.Start` returns no error
unfoldable pub start : Bool → String → RuntimeMap → Result Server × RuntimeMap × List Status
start runs id m = start_defined id m runs (find_definition id)

abbrev stop_begun : String → RuntimeMap → Result Runtime → Result Unit × RuntimeMap × List Status
stop_begun id m (err e) = (err e, m, [])
stop_begun id m (ok rt) = (ok tt, assign id rt m, stopping ∷ [])

abbrev pub stop_defined :
    (Runtime → Result Runtime)
    → String
    → RuntimeMap
    → Option Definition
    → Result Unit × RuntimeMap × List Status
stop_defined begin id m none = (err not_found, m, [])
stop_defined begin id m (some d) = stop_begun id m (begin (or_idle (m id)))

-- `Stop` up to where it starts the goroutine
unfoldable pub stop : String → RuntimeMap → Result Unit × RuntimeMap × List Status
stop id m = stop_defined begin_stop id m (find_definition id)

-- `ForceRestartStopSequence` up to where it starts the goroutine
unfoldable pub force_restart_stop : String → RuntimeMap → Result Unit × RuntimeMap × List Status
force_restart_stop id m = stop_defined begin_forced_stop id m (find_definition id)
