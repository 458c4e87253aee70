-- ===== src/Shortcuts/Tests.antt =====
-- Shortcuts at concrete inputs.
use a6_core.Prelude.{String, Bool, false, Option, none, some, [], ◌∷◌, ◌==◌, refl, ne_of_test}
use a6_core.Samples.{empty_state, store_of, calm}
use a6_core.State.Types.{Shortcut}
use a6_core.State.Store.{Store}
use a6_core.Shortcuts.{UpdateInput, create, update_shortcut, delete}
use a6_core.Shortcuts.Invariant.{AllValid, shortcuts-AllValid}

-- stands for `url.Parse` on the sample addresses
abbrev parse : String → Option (String × String)
parse url = some ("https", url)

abbrev exists : String → Bool
exists icon = icon == "i1"

abbrev offline : String → Option String
offline url = none

abbrev online : String → Option String
online url = some "i9"

abbrev news : Shortcut
news = record { id = "s1"; name = "News"; url = "https://n"; icon_id = "i1" }

abbrev store : Store
store = store_of (record empty_state { shortcuts = news ∷ [] })

abbrev rename : UpdateInput
rename = record { name = some " Daily "; url = none; icon_id = none; refresh_icon = false }

shortcuts-AllValid_example :
    AllValid parse (create parse exists offline calm "s2" "TV" "https://t" "" store).1.state
    × AllValid parse (update_shortcut parse exists offline calm "s1" rename store).1.state
    × AllValid parse (delete calm "s1" store).1.state
shortcuts-AllValid_example =
    shortcuts-AllValid parse exists offline calm "s2" "TV" "https://t" "" "s1" rename store
      ((ne_of_test "News" "" refl, refl), tt)
