-- ===== src/Server/GameServers/Tests.antt =====
-- The theorems about requests to game servers at concrete inputs.
use a6_core.Prelude.{true, [], ◌≡◌, ◌⊎◌}
use a6_core.Servers.Manager.{running, new_manager, set_status, or_idle}
use a6_core.Http.{Request, force_request}
use a6_core.Server.GameServers.{Api, handle_stop}
use a6_core.Server.GameServers.Outcomes.{StopRefused, StopBegan, handle_stop_lem}
use a6_core.Samples.{request}

abbrev fresh : Api
fresh = record { runtime = new_manager; notified = []; launched = [] }

abbrev up : Api
up = record fresh { runtime = set_status "minecraft" running new_manager }

abbrev asked : Request
asked = request "" "minecraft" (force_request true)

handle_stop_lem_example :
    let result = handle_stop asked up in
    let rt = or_idle (up.runtime "minecraft") in
    (StopRefused "minecraft" true rt result.0 × (result.1 ≡ up))
    ⊎ StopBegan "minecraft" true rt up result
handle_stop_lem_example = handle_stop_lem asked up
