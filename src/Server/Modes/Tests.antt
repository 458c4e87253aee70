-- ===== src/Server/Modes/Tests.antt =====
-- Switching the mode at concrete requests.
use a6_core.Prelude.{pos}
use a6_core.Prelude.{true, false, [], ◌∷◌, List}
use a6_core.Samples.{two_devices, app_of, env, request}
use a6_core.Servers.Manager.{BlockingResource}
use a6_core.Http.{Request, switch_request}
use a6_core.Server.Modes.{decode_switch, handle_modes_post}
use a6_core.Server.Modes.Outcomes.{ModeEnds, handle_modes_post_lem}
use a6_core.Prelude.{pos}
use a6_core.Prelude.{none, ◌≢◌, ap, ne_of_test, refl}
use a6_core.State.Types.{State}
use a6_core.State.Store.{update, snapshot}
use a6_core.State.Disk.Save.{
  save_locked, save_body, keep_backup, copy_file, copy_body, remove_temp, remove_backup_temp,
}
use a6_core.State.Disk.Calls.{perform, atomically, attempt}
use a6_core.Servers.Manager.{new_manager}
use a6_core.Servers.Manager as ServersManager
use a6_core.Apps.{Apps}
use a6_core.Apps as ForegroundApps
use a6_core.Modes.{switch, current}
use a6_core.Http.{Response}
use a6_core.Server.App.{App}
use a6_core.Server.Modes.Checker.{combined_checker}

abbrev players_on : List BlockingResource
players_on = record { type = "server"; id = "minecraft"; players = pos 2 } ∷ []

abbrev to_sleep : Request
to_sleep = request "Bearer k2" "" (switch_request "sleep" false)

handle_modes_post_lem_example :
    ModeEnds players_on true env.faults
      (app_of two_devices)
      (decode_switch to_sleep.body)
      (handle_modes_post players_on true env to_sleep (app_of two_devices))
handle_modes_post_lem_example =
    handle_modes_post_lem players_on true env to_sleep (app_of two_devices)

abbrev quiet : Apps
quiet = record { current = none; performed = [] }

abbrev sleeps : Response × App
sleeps =
    handle_modes_post (combined_checker quiet new_manager) true env to_sleep (app_of two_devices)

mode_changes : sleeps.1.store.state ≢ two_devices
unfolding handle_modes_post switch current snapshot combined_checker ForegroundApps.blocking
    ServersManager.blocking new_manager update save_locked save_body keep_backup copy_file copy_body
    remove_temp remove_backup_temp perform atomically attempt
mode_changes h = ne_of_test "sleep" "tv" refl (ap (λ (st : State). st.mode) h)
