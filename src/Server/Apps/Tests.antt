-- ===== src/Server/Apps/Tests.antt =====
-- Launching and closing at concrete requests.
use a6_core.Prelude.{true, some, [], ◌∷◌}
use a6_core.Samples.{empty_state, store_of, request}
use a6_core.Retro.{Entry, entries}
use a6_core.Apps.{Session, launches}
use a6_core.Http.{Request, launch_request}
use a6_core.Server.Apps.{Desk, Outside}

abbrev zelda : Entry
zelda = record { name = "zelda.nes"; regular = true }

abbrev outside : Outside
outside = record {
  read = λ console. entries (zelda ∷ []);
  store = store_of empty_state;
  closes_ok = true;
  launches_ok = true;
  id = "a2";
  now = 9;
}

abbrev browser : Session
browser = record {
  id = "a1";
  type = "browser";
  shortcut_id = "";
  console = "";
  game_id = "";
  started_at = 3;
}

abbrev browsing : Desk
browsing = record {
  apps = record { current = some browser; performed = launches browser ∷ [] };
  published = [];
}

abbrev play : Request
play = request "Bearer k2" "" (launch_request "retro" "" "nes" "zelda.nes")
