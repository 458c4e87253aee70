-- ===== src/Retro.antt =====
-- internal/retro/retro.go: the consoles and their games. What `os.ReadDir` answers for a console's
-- directory is an argument.
pub mod Names
use a6_core.Prelude.{
  String, Bool, true, false, not, Option, none, some, List, [], ◌∷◌, ◌==◌, ◌&&◌, ◌||◌, eqb, map,
  any, keep_if, if◌then◌else◌,
}
use Prim.Native.String.{◌++◌}
use a6_core.Retro.Names.{starts_with_dot, title_of}

pub record ConsoleDef : Type 0 where
  pub id : String
  pub name : String

abbrev console : String → String → ConsoleDef
console id name = record { id = id; name = name }

abbrev console_list : List ConsoleDef
console_list =
    console "nes" "NES"
    ∷ console "snes" "SNES"
    ∷ console "genesis" "Genesis"
    ∷ console "ps1" "PS1"
    ∷ console "n64" "N64"
    ∷ []

-- `ValidateConsole` finds no error
unfoldable pub validate_console : String → Bool
validate_console id = any (λ c. c.id == id) console_list

pub record Entry : Type 0 where
  pub name : String
  pub regular : Bool

pub data Reading : Type 0 where
  missing unreadable : Reading
  entries : List Entry → Reading

pub record Game : Type 0 where
  pub id : String
  pub title : String

pub record Console : Type 0 where
  pub id : String
  pub name : String
  pub available : Bool

pub data RetroError : Type 0 where
  unknown_console read_failed : RetroError

pub data Scanned (A : Type 0) : Type 0 where
  scanned : A → Scanned A
  error : RetroError → Scanned A

abbrev is_game : Entry → Bool
is_game e = e.regular && not (starts_with_dot e.name)

abbrev game_of : Entry → Game
game_of e = record { id = e.name; title = title_of e.name }

abbrev games_read : Reading → Scanned (List Game)
games_read missing = scanned []
games_read unreadable = error read_failed
games_read (entries es) = scanned (map game_of (keep_if is_game es))

module _ (read : String → Reading) where
  -- `Games`
  unfoldable pub games : String → Scanned (List Game)
  games id = if validate_console id then games_read (read id) else error unknown_console

  abbrev has_games : Scanned (List Game) → Bool
  has_games (scanned (g ∷ gs)) = true
  has_games _ = false

  abbrev console_of : ConsoleDef → Console
  console_of c = record { id = c.id; name = c.name; available = has_games (games c.id) }

  -- `Consoles`
  unfoldable pub consoles : List Console
  consoles = map console_of console_list

  abbrev exists_in : String → Scanned (List Game) → Scanned Bool
  exists_in game (scanned gs) = scanned (any (λ g. g.id == game) gs)
  exists_in game (error e) = error e

  -- `GameExists`
  unfoldable pub game_exists : String → String → Scanned Bool
  game_exists id game = exists_in game (games id)

  abbrev game_path_in : (String → String) → String → String → Scanned Bool → Scanned (Option String)
  game_path_in rom_dir id game (scanned true) = scanned (some (rom_dir id ++ "/" ++ game))
  game_path_in rom_dir id game (scanned false) = scanned none
  game_path_in rom_dir id game (error e) = error e

  -- `GamePath`, with `none` for a game that is not found; `rom_dir` gives a clean path, and so does
  -- joining it to the name of a directory's entry
  unfoldable pub game_path : (String → String) → String → String → Scanned (Option String)
  game_path rom_dir id game = game_path_in rom_dir id game (game_exists id game)
