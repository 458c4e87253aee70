-- ===== src/Server/Apps.antt =====
-- internal/server/app_handlers.go and internal/server/retro_handlers.go, over the manager of
-- internal/apps/apps.go.
pub mod Validity
pub mod Outcomes
mod Tests
use a6_core.Prelude.{
  ℕ, String, Bool, true, false, Option, none, some, List, [], ◌∷◌, ◌++◌, ◌==◌, if◌then◌else◌,
}
use a6_core.State.Store.{Store}
use a6_core.Events.{Event}
use a6_core.Retro.{
  Reading, Game, Console, RetroError, read_failed, Scanned, scanned, consoles, games,
}
use a6_core.Retro as Retro
use a6_core.Apps.{
  type_retro, AppError, invalid_type, missing_shortcut_id, missing_console, missing_game_id,
  game_not_found, shortcut_not_found, unknown_console, scan_failed, close_failed, launch_failed,
  Session, LaunchInput, Apps, Launched, launched, failed, launch, close,
}
use a6_core.Http.{
  Body, malformed, launch_request, Request, Response, app_session, json_error, plain,
}

-- the manager, and what was published, the last event first
pub record Desk : Type 0 where
  pub apps : Apps
  pub published : List Event

-- what a launch meets: the games on the disk, the stored shortcuts, whether the executor closes the old
-- session and launches the new one, the id that is drawn, and the clock
pub record Outside : Type 0 where
  pub read : String → Reading
  pub store : Store
  pub closes_ok : Bool
  pub launches_ok : Bool
  pub id : String
  pub now : ℕ

-- `currentAppResponse`
record CurrentApp : Type 0 where
  type : Option String
  shortcut_id : String
  console : String
  game_id : String
  started_at : Option ℕ

-- `sessionToResponse`
abbrev session_to_response : Option Session → CurrentApp
session_to_response none = record {
  type = none;
  shortcut_id = "";
  console = "";
  game_id = "";
  started_at = none;
}
session_to_response (some s) = record {
  type = some s.type;
  shortcut_id = s.shortcut_id;
  console = s.console;
  game_id = s.game_id;
  started_at = some s.started_at;
}

-- `handleCurrent`
unfoldable handle_current : Desk → CurrentApp
handle_current d = session_to_response d.apps.current

abbrev unless_empty : String → String → List (String × String)
unless_empty key value = if value == "" then [] else (key, value) ∷ []

-- `launchEventData`
unfoldable pub launch_event_data : Session → List (String × String)
launch_event_data s =
    ("type", s.type) ∷ unless_empty "shortcut_id" s.shortcut_id
    ++ unless_empty "console" s.console
    ++ unless_empty "game_id" s.game_id

-- `writeLaunchError`
unfoldable pub write_launch_error : AppError → Response
write_launch_error unknown_console = json_error 422 "unknown_console"
write_launch_error (scan_failed Retro.unknown_console) = json_error 422 "unknown_console"
write_launch_error invalid_type = json_error 400 "invalid_request"
write_launch_error missing_shortcut_id = json_error 400 "invalid_request"
write_launch_error missing_console = json_error 400 "invalid_request"
write_launch_error missing_game_id = json_error 400 "invalid_request"
write_launch_error shortcut_not_found = json_error 400 "shortcut_not_found"
write_launch_error game_not_found = json_error 400 "game_not_found"
write_launch_error _ = json_error 500 "launch_failed"

abbrev pub launched_event : Session → Event
launched_event s = record { event = "app.launched"; fields = launch_event_data s }

abbrev pub closed_event : Session → Event
closed_event s = record { event = "app.closed"; fields = ("type", s.type) ∷ [] }

-- `json.Decode` into a `launchAppRequest`
abbrev pub decode_launch : Body → Option LaunchInput
decode_launch malformed = none
decode_launch (launch_request type shortcut console game) =
    some (record { type = type; shortcut_id = shortcut; console = console; game_id = game })
decode_launch _ = some (record { type = ""; shortcut_id = ""; console = ""; game_id = "" })

abbrev retro_input : String → String → LaunchInput
retro_input console game = record {
  type = type_retro;
  shortcut_id = "";
  console = console;
  game_id = game;
}

-- `json.Decode` into the console and the game, and the input that is made of them
abbrev pub decode_retro : Body → Option LaunchInput
decode_retro malformed = none
decode_retro (launch_request type shortcut console game) = some (retro_input console game)
decode_retro _ = some (retro_input "" "")

abbrev pub answer_launch : Launched Session × Apps → Desk → Response × Desk
answer_launch (launched c, apps) d = (
  record { status = 202; answer = app_session c.id },
  record { apps = apps; published = launched_event c ∷ d.published },
)
answer_launch (failed e, apps) d = (write_launch_error e, record d { apps = apps })

abbrev pub launch_decoded : Outside → Option LaunchInput → Desk → Response × Desk
launch_decoded o none d = (json_error 400 "invalid_body", d)
launch_decoded o (some input) d =
    answer_launch (launch o.read o.store o.closes_ok o.launches_ok o.id o.now input d.apps) d

-- `handleLaunch` of /v1/apps/launch
unfoldable pub handle_launch : Outside → Request → Desk → Response × Desk
handle_launch o r d = launch_decoded o (decode_launch r.body) d

-- `handleLaunch` of /v1/retro/launch
unfoldable pub handle_retro_launch : Outside → Request → Desk → Response × Desk
handle_retro_launch o r d = launch_decoded o (decode_retro r.body) d

abbrev pub publish_closed : Option Session → Desk → Desk
publish_closed none d = d
publish_closed (some before) d = record d { published = closed_event before ∷ d.published }

abbrev pub answer_close : Option Session → Launched Unit × Apps → Desk → Response × Desk
answer_close before (launched x, apps) d =
    (plain 202, publish_closed before (record d { apps = apps }))
answer_close before (failed e, apps) d = (json_error 500 "close_failed", record d { apps = apps })

-- `handleClose`
unfoldable pub handle_close : Bool → Desk → Response × Desk
handle_close closes_ok d = answer_close d.apps.current (close closes_ok d.apps) d

-- what a request for the games is answered
data GamesAnswer : Type 0 where
  listing : List Game → GamesAnswer
  failure : Response → GamesAnswer

abbrev launch_error_of : RetroError → AppError
launch_error_of e = scan_failed e

abbrev answer_games : Scanned (List Game) → GamesAnswer
answer_games (scanned gs) = listing gs
answer_games (Retro.error e) = failure (write_launch_error (launch_error_of e))

-- `handleConsoles`
unfoldable handle_consoles : (String → Reading) → List Console
handle_consoles read = consoles read

-- `handleGames`; `console` is that of the query
unfoldable handle_games : (String → Reading) → String → GamesAnswer
handle_games read console =
    if console == ""
    then failure (json_error 400 "missing_console")
    else answer_games (games read console)
