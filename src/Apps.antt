-- ===== src/Apps.antt =====
-- internal/apps/apps.go: the one foreground session. The executors' answers are arguments, and what they
-- were asked successfully is recorded, the last act first.
pub mod Sessions
mod Tests
use a6_core.Prelude.{pos}
use a6_core.Prelude.{
  ℕ, String, Bool, true, false, Option, none, some, List, [], ◌∷◌, ◌==◌, if◌then◌else◌,
}
use Prim.Native.String.{◌++◌}
use a6_core.State.Store.{Store}
use a6_core.Servers.Manager.{BlockingResource}
use a6_core.Shortcuts.{Checked, fine, bad, get_shortcut}
use a6_core.Retro.{Reading, RetroError, Scanned, scanned, error, validate_console, game_exists}

abbrev pub type_browser : String
type_browser = "browser"

abbrev pub type_shortcut : String
type_shortcut = "shortcut"

abbrev pub type_retro : String
type_retro = "retro"

pub data AppError : Type 0 where
  invalid_type missing_shortcut_id missing_console missing_game_id game_not_found : AppError
  shortcut_not_found unknown_console : AppError
  scan_failed : RetroError → AppError
  close_failed launch_failed : AppError

pub record Session : Type 0 where
  pub id : String
  pub type : String
  pub shortcut_id : String
  pub console : String
  pub game_id : String
  pub started_at : ℕ

pub record LaunchInput : Type 0 where
  pub type : String
  pub shortcut_id : String
  pub console : String
  pub game_id : String

-- what the executors did
pub data Act : Type 0 where
  launches : Session → Act
  closes : Act

pub record Apps : Type 0 where
  pub current : Option Session
  pub performed : List Act

pub data Launched (A : Type 0) : Type 0 where
  launched : A → Launched A
  failed : AppError → Launched A

abbrev candidate : String → String → String → String → Session
candidate type shortcut console game = record {
  id = "";
  type = type;
  shortcut_id = shortcut;
  console = console;
  game_id = game;
  started_at = 0;
}

abbrev pub valid_shortcut : String → {A : Type 0} → Checked A → Launched Session
valid_shortcut id (bad e) = failed shortcut_not_found
valid_shortcut id (fine sc) = launched (candidate type_shortcut id "" "")

abbrev pub valid_game : String → String → Scanned Bool → Launched Session
valid_game console game (error e) = failed (scan_failed e)
valid_game console game (scanned false) = failed game_not_found
valid_game console game (scanned true) = launched (candidate type_retro "" console game)

module _ (read : String → Reading) (store : Store) where
  abbrev pub validate_shortcut : LaunchInput → Launched Session
  validate_shortcut input =
      if input.shortcut_id == ""
      then failed missing_shortcut_id
      else valid_shortcut input.shortcut_id (get_shortcut input.shortcut_id store)

  abbrev pub validate_retro : LaunchInput → Launched Session
  validate_retro input =
      if input.console == ""
      then failed missing_console
      else if validate_console input.console
      then (if input.game_id == ""
          then failed missing_game_id
          else valid_game input.console input.game_id
              (game_exists read input.console input.game_id))
      else failed unknown_console

  -- `validate`
  unfoldable pub validate : LaunchInput → Launched Session
  validate input =
      if input.type == type_browser
      then launched (candidate type_browser "" "" "")
      else if input.type == type_shortcut
      then validate_shortcut input
      else if input.type == type_retro
      then validate_retro input
      else failed invalid_type

-- `if m.current != nil { … }`: whether what runs was closed
abbrev pub close_current : Bool → Apps → Bool × Apps
close_current closes_ok s = elim s.current [
  | none ↦ (true, s)
  | some old ↦
      if closes_ok
      then (true, record { current = none; performed = closes ∷ s.performed })
      else (false, s)
]

abbrev pub start : Bool → Session → Apps → Launched Session × Apps
start true c s = (launched c, record { current = some c; performed = launches c ∷ s.performed })
start false c s = (failed launch_failed, record s { current = none })

abbrev pub launch_closed : Bool → Session → Bool × Apps → Launched Session × Apps
launch_closed launches_ok c (true, s) = start launches_ok c s
launch_closed launches_ok c (false, s) = (failed close_failed, s)

abbrev pub launch_valid :
    Bool → Bool → String → ℕ → Apps → Launched Session → Launched Session × Apps
launch_valid closes_ok launches_ok id now s (failed e) = (failed e, s)
launch_valid closes_ok launches_ok id now s (launched c) =
    launch_closed launches_ok (record c { id = id; started_at = now }) (close_current closes_ok s)

-- `Launch`; `id` and `now` are what it draws and reads off the clock
unfoldable pub launch :
    (String → Reading)
    → Store
    → Bool
    → Bool
    → String
    → ℕ
    → LaunchInput
    → Apps
    → Launched Session × Apps
launch read store closes_ok launches_ok id now input s =
    launch_valid closes_ok launches_ok id now s (validate read store input)

abbrev pub closed : Bool × Apps → Launched Unit × Apps
closed (true, s) = (launched tt, s)
closed (false, s) = (failed close_failed, s)

-- `Close`
unfoldable pub close : Bool → Apps → Launched Unit × Apps
close closes_ok s = closed (close_current closes_ok s)

abbrev blocking_id : Session → String
blocking_id c =
    if c.type == type_shortcut
    then "shortcut:" ++ c.shortcut_id
    else if c.type == type_retro
    then "retro:" ++ c.console ++ "/" ++ c.game_id
    else c.type

abbrev pub blocks : Option Session → List BlockingResource
blocks none = []
blocks (some c) = record { type = "app"; id = blocking_id c; players = pos 0 } ∷ []

-- `Blocking`
unfoldable pub blocking : Apps → List BlockingResource
blocking s = blocks s.current
