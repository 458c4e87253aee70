-- ===== src/AppLaunch.antt =====
-- internal/applaunch/applaunch.go and internal/xsession/xsession.go: the executors that start and end
-- the programs of the foreground session. What the operating system answers is an argument.
pub mod Process
mod Tests
use a6_core.Prelude.{
  ℕ, zero, suc, String, Bool, true, false, not, Option, none, some, List, [], ◌∷◌, ◌++◌, ◌==◌, eqb,
  if◌then◌else◌,
}
use a6_core.State.Store.{Store}
use a6_core.Shortcuts.{Checked, fine, bad, get_shortcut}
use a6_core.Retro.{Reading, Scanned, scanned, error, game_path}
use a6_core.Apps.{type_browser, type_shortcut, type_retro, Session}

-- `xsession.Info`
pub record XInfo : Type 0 where
  pub display : String
  pub auth_file : String

-- the loop of `parseXorgCmdline`; `is_display` is the test of its first three conditions
abbrev xorg_args : (String → Bool) → XInfo → List String → XInfo
xorg_args is_display info [] = info
xorg_args is_display info (a ∷ []) = if is_display a then record info { display = a } else info
xorg_args is_display info (a ∷ b ∷ args) =
    let shown = if is_display a then record info { display = a } else info in
    xorg_args is_display (if a == "-auth" then record shown { auth_file = b } else shown) (b ∷ args)

-- `parseXorgCmdline`
unfoldable pub parse_xorg_cmdline : (String → Bool) → List String → XInfo
parse_xorg_cmdline is_display args =
    xorg_args is_display (record { display = ":0"; auth_file = "" }) args

pub data Signal : Type 0 where
  term kill : Signal

-- a program that was started
pub record Started : Type 0 where
  pub bin : String
  pub args : List String
  pub x : XInfo

-- `executor`: the process that it tracks, 0 for none; what it started and the signals it sent, the
-- last one first
pub record Executor : Type 0 where
  pub pid : ℕ
  pub started : List Started
  pub signals : List (Signal × ℕ)

pub data LaunchError : Type 0 where
  no_shortcut no_emulator no_game no_x_session not_started no_process : LaunchError

-- `NewExecutors`
abbrev pub new_executor : Executor
new_executor = record { pid = 0; started = []; signals = [] }

-- `consoleEmulator`
abbrev console_emulator : String → Option String
console_emulator console = if console == "nes" then some "fceux" else none

-- `chromiumArgs`
unfoldable pub chromium_args : String → List String
chromium_args url =
    "--kiosk" ∷ "--no-first-run" ∷ "--disable-infobars" ∷ (if url == "" then [] else url ∷ [])

-- what `xsession.Find` finds, and the pid of the program if it starts
pub record Machine : Type 0 where
  pub x : Option XInfo
  pub start : Option ℕ

abbrev pub track :
    String → List String → XInfo → Option ℕ → Executor → Option LaunchError × Executor
track bin args x none e = (some not_started, e)
track bin args x (some pid) e =
    (none, record e { pid = pid; started = record { bin = bin; args = args; x = x } ∷ e.started })

abbrev pub launch_at :
    Machine → String → List String → Option XInfo → Executor → Option LaunchError × Executor
launch_at m bin args none e = (some no_x_session, e)
launch_at m bin args (some x) e = track bin args x m.start e

-- `launchAndTrack`
unfoldable pub launch_and_track :
    Machine → String → List String → Executor → Option LaunchError × Executor
launch_and_track m bin args e = launch_at m bin args m.x e

-- `launchChromium`
abbrev pub launch_chromium : Machine → String → Executor → Option LaunchError × Executor
launch_chromium m url e = launch_and_track m "chromium" (chromium_args url) e

abbrev launch_game :
    Machine → String → Scanned (Option String) → Executor → Option LaunchError × Executor
launch_game m bin (scanned (some path)) e = launch_and_track m bin (path ∷ []) e
launch_game m bin (scanned none) e = (some no_game, e)
launch_game m bin (error x) e = (some no_game, e)

module _ (read : String → Reading) (rom_dir : String → String) (store : Store) where
  abbrev launch_with :
      Machine → String → String → Option String → Executor → Option LaunchError × Executor
  launch_with m console game none e = (some no_emulator, e)
  launch_with m console game (some bin) e =
      launch_game m bin (game_path read rom_dir console game) e

  -- `launchRetro`
  unfoldable pub launch_retro : Machine → String → String → Executor → Option LaunchError × Executor
  launch_retro m console game e = launch_with m console game (console_emulator console) e

  abbrev launch_found :
      {A : Type 0} → (A → String) → Machine → Checked A → Executor → Option LaunchError × Executor
  launch_found url m (bad x) e = (some no_shortcut, e)
  launch_found url m (fine sc) e = launch_chromium m (url sc) e

  -- `launch`
  unfoldable pub launch : Machine → Session → Executor → Option LaunchError × Executor
  launch m s e =
      if s.type == type_browser
      then launch_chromium m "" e
      else if s.type == type_shortcut
      then launch_found (λ sc. sc.url) m (get_shortcut s.shortcut_id store) e
      else if s.type == type_retro
      then launch_retro m s.console s.game_id e
      else (none, e)

-- what the operating system answers while a process is ended: whether it is found, whether it takes the first
-- signal, and whether it is alive after the grace period
pub record Ending : Type 0 where
  pub found : Bool
  pub takes_term : Bool
  pub outlives_grace : Bool

abbrev pub send : Signal → ℕ → Executor → Executor
send s pid e = record e { signals = (s, pid) ∷ e.signals }

abbrev pub end_process : Ending → ℕ → Executor → Option LaunchError × Executor
end_process w zero e = (none, e)
end_process w (suc n) e =
    let after = send term (suc n) e in
    if not w.found
    then (some no_process, e)
    else if not w.takes_term
    then (none, e)
    else (none, if w.outlives_grace then send kill (suc n) after else after)

-- `close`
unfoldable pub close : Ending → Executor → Option LaunchError × Executor
close w e = end_process w e.pid (record e { pid = 0 })
