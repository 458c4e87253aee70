-- ===== src/AppLaunch/Tests.antt =====
-- The executors at concrete processes.
use a6_core.Prelude.{String, Bool, true, ◌==◌, ◌≡◌, refl, [], ◌∷◌}
use a6_core.AppLaunch.{Executor, Ending, parse_xorg_cmdline, chromium_args, close}
use a6_core.AppLaunch.Process.{CloseEnds, close_lem}

abbrev running : Executor
running = record { pid = 41; started = []; signals = [] }

abbrev stubborn : Ending
stubborn = record { found = true; takes_term = true; outlives_grace = true }

close_lem_example : CloseEnds stubborn 41 running (close stubborn running)
close_lem_example = close_lem stubborn running

abbrev is_one : String → Bool
is_one a = a == ":1"

reads_xorg :
    parse_xorg_cmdline is_one ("Xorg" ∷ ":1" ∷ "-auth" ∷ "/tmp/a" ∷ [])
    ≡ record { display = ":1"; auth_file = "/tmp/a" }
unfolding parse_xorg_cmdline
reads_xorg = refl

kiosk : chromium_args "" ≡ "--kiosk" ∷ "--no-first-run" ∷ "--disable-infobars" ∷ []
unfolding chromium_args
kiosk = refl
