-- ===== src/Server/Apps/Validity.antt =====
-- What a request to launch has to be, and what one that is not is answered.
use a6_core.Prelude.{
  ℕ, String, Bool, true, false, ◌==◌, ◌≡◌, ◌≢◌, refl, subst, eq_of_test, ne_of_test, if_lem,
}
use a6_core.State.Types.{Shortcut}
use a6_core.State.Store.{Store}
use a6_core.Shortcuts.{Checked, fine, bad, ShortcutError, get_shortcut}
use a6_core.Retro as Retro
use a6_core.Retro.{
  Reading, RetroError, Scanned, scanned, read_failed, validate_console, game_exists,
}
use a6_core.Apps.{
  Session, LaunchInput, Launched, launched, failed, validate, valid_shortcut, valid_game,
  validate_shortcut, validate_retro,
}
use a6_core.Http.{json_error}
use a6_core.Server.Apps.{write_launch_error}

module _ (read : String → Reading) (store : Store) (input : LaunchInput) where
  abbrev session : String → String → String → Session
  session shortcut console game = record {
    id = "";
    type = input.type;
    shortcut_id = shortcut;
    console = console;
    game_id = game;
    started_at = 0;
  }

  -- a request that may be launched, and its session, which has no id or time yet
  pub data Allows : Session → Type 0 where
    a_browser : input.type ≡ "browser" → Allows (session "" "" "")
    a_shortcut :
        (sc : Shortcut)
        → input.type ≡ "shortcut"
        → input.shortcut_id ≢ ""
        → get_shortcut input.shortcut_id store ≡ fine sc
        → Allows (session input.shortcut_id "" "")
    a_game :
        input.type ≡ "retro"
        → input.console ≢ ""
        → input.game_id ≢ ""
        → validate_console input.console ≡ true
        → game_exists read input.console input.game_id ≡ scanned true
        → Allows (session "" input.console input.game_id)

  -- one that is turned away, with the status and the code of the answer
  pub data Refuses : ℕ → String → Type 0 where
    no_type :
        input.type ≢ "browser"
        → input.type ≢ "shortcut"
        → input.type ≢ "retro"
        → Refuses 400 "invalid_request"
    no_shortcut : input.type ≡ "shortcut" → input.shortcut_id ≡ "" → Refuses 400 "invalid_request"
    lost_shortcut :
        (e : ShortcutError)
        → input.type ≡ "shortcut"
        → get_shortcut input.shortcut_id store ≡ bad e
        → Refuses 400 "shortcut_not_found"
    no_console : input.type ≡ "retro" → input.console ≡ "" → Refuses 400 "invalid_request"
    other_console :
        input.type ≡ "retro"
        → validate_console input.console ≡ false
        → Refuses 422 "unknown_console"
    no_game : input.type ≡ "retro" → input.game_id ≡ "" → Refuses 400 "invalid_request"
    lost_game :
        input.type ≡ "retro"
        → game_exists read input.console input.game_id ≡ scanned false
        → Refuses 400 "game_not_found"
    no_folder :
        input.type ≡ "retro"
        → game_exists read input.console input.game_id ≡ Retro.error Retro.unknown_console
        → Refuses 422 "unknown_console"
    unread_folder :
        input.type ≡ "retro"
        → game_exists read input.console input.game_id ≡ Retro.error read_failed
        → Refuses 500 "launch_failed"

  abbrev pub IsChecked : Launched Session → Type 0
  IsChecked (launched v) = Allows v
  IsChecked (failed e) =
      (status : ℕ) × (code : String) × Refuses status code
      × (write_launch_error e ≡ json_error status code)

  by_shortcut :
      (o : Checked Shortcut)
      → input.type ≡ "shortcut"
      → input.shortcut_id ≢ ""
      → get_shortcut input.shortcut_id store ≡ o
      → IsChecked (valid_shortcut input.shortcut_id o)
  unfolding write_launch_error
  by_shortcut (fine sc) t n h =
      subst (λ type. Allows (record (session input.shortcut_id "" "") { type = type })) t
        (a_shortcut sc t n h)
  by_shortcut (bad e) t n h = (_, _, lost_shortcut e t h, refl)

  by_game :
      (o : Scanned Bool)
      → input.type ≡ "retro"
      → input.console ≢ ""
      → input.game_id ≢ ""
      → validate_console input.console ≡ true
      → game_exists read input.console input.game_id ≡ o
      → IsChecked (valid_game input.console input.game_id o)
  unfolding write_launch_error
  by_game (scanned true) t c g v h =
      subst (λ type. Allows (record (session "" input.console input.game_id) { type = type })) t
        (a_game t c g v h)
  by_game (scanned false) t c g v h = (_, _, lost_game t h, refl)
  by_game (Retro.error Retro.unknown_console) t c g v h = (_, _, no_folder t h, refl)
  by_game (Retro.error read_failed) t c g v h = (_, _, unread_folder t h, refl)

  shortcut-IsChecked : input.type ≡ "shortcut" → IsChecked (validate_shortcut read store input)
  unfolding write_launch_error
  shortcut-IsChecked t =
      if_lem IsChecked (input.shortcut_id == "") _ _
        (λ e. (_, _, no_shortcut t (eq_of_test input.shortcut_id "" e), refl))
        (λ n.
          by_shortcut (get_shortcut input.shortcut_id store) t (ne_of_test input.shortcut_id "" n)
            refl)

  retro-IsChecked : input.type ≡ "retro" → IsChecked (validate_retro read store input)
  unfolding write_launch_error
  retro-IsChecked t =
      if_lem IsChecked (input.console == "") _ _
        (λ e. (_, _, no_console t (eq_of_test input.console "" e), refl))
        (λ c.
          if_lem IsChecked (validate_console input.console) _ _
            (λ v.
              if_lem IsChecked (input.game_id == "") _ _
                (λ e. (_, _, no_game t (eq_of_test input.game_id "" e), refl))
                (λ g.
                  by_game (game_exists read input.console input.game_id) t
                    (ne_of_test input.console "" c) (ne_of_test input.game_id "" g) v refl))
            (λ v. (_, _, other_console t v, refl)))

  pub validate-IsChecked : IsChecked (validate read store input)
  unfolding validate write_launch_error
  validate-IsChecked =
      if_lem IsChecked (input.type == "browser") _ _
        (λ b.
          let t = eq_of_test input.type "browser" b in
          subst (λ type. Allows (record (session "" "" "") { type = type })) t (a_browser t))
        (λ b.
          if_lem IsChecked (input.type == "shortcut") _ _
            (λ s. shortcut-IsChecked (eq_of_test input.type "shortcut" s))
            (λ s.
              if_lem IsChecked (input.type == "retro") _ _
                (λ r. retro-IsChecked (eq_of_test input.type "retro" r))
                (λ r. (
                  _,
                  _,
                  no_type (ne_of_test input.type "browser" b) (ne_of_test input.type "shortcut" s)
                      (ne_of_test input.type "retro" r),
                  refl,
                ))))
