-- ===== src/Apps/Tests.antt =====
-- Sessions at a concrete request.
use a6_core.Prelude.{String, true, some, [], ◌∷◌}
use a6_core.Retro.{Reading, entries}
use a6_core.Apps.{Session, LaunchInput, launches, Apps}

abbrev read : String → Reading
read console = entries (record { name = "zelda.nes"; regular = true } ∷ [])

abbrev browser : Session
browser = record {
  id = "a1";
  type = "browser";
  shortcut_id = "";
  console = "";
  game_id = "";
  started_at = 3;
}

abbrev browsing : Apps
browsing = record { current = some browser; performed = launches browser ∷ [] }

abbrev zelda : LaunchInput
zelda = record { type = "retro"; shortcut_id = ""; console = "nes"; game_id = "zelda.nes" }
