-- ===== src/Server/Shortcuts.antt =====
-- internal/server/shortcut_handlers.go, over internal/shortcuts/shortcuts.go.
pub mod Outcomes
mod Tests
use a6_core.Prelude.{String, Bool, false, Option, none, some, List}
use a6_core.State.Types.{Shortcut}
use a6_core.State.Store.{Store}
use a6_core.Shortcuts.{
  ShortcutError, not_found, invalid_name, invalid_url, icon_not_found, not_saved, Checked, fine,
  bad, UpdateInput, list_shortcuts, create, update_shortcut, delete,
}
use a6_core.Http.{
  Body, malformed, shortcut_request, Request, Response, shortcut, json_error, plain, Env,
}

-- `handleList`
unfoldable handle_list : Store → List Shortcut
handle_list s = list_shortcuts s

-- `writeShortcutError`
unfoldable pub write_shortcut_error : ShortcutError → Response
write_shortcut_error not_found = json_error 404 "not_found"
write_shortcut_error invalid_name = json_error 400 "invalid_name"
write_shortcut_error invalid_url = json_error 400 "invalid_url"
write_shortcut_error icon_not_found = json_error 400 "icon_not_found"
write_shortcut_error not_saved = json_error 500 "save_failed"

abbrev or_empty : Option String → String
or_empty none = ""
or_empty (some s) = s

-- `createShortcutRequest`
pub record CreateShortcut : Type 0 where
  pub name : String
  pub url : String
  pub icon_id : String

abbrev pub decode_create : Body → Option CreateShortcut
decode_create malformed = none
decode_create (shortcut_request name url icon refresh) =
    some (record { name = or_empty name; url = or_empty url; icon_id = or_empty icon })
decode_create _ = some (record { name = ""; url = ""; icon_id = "" })

-- `updateShortcutRequest`
abbrev pub decode_update : Body → Option UpdateInput
decode_update malformed = none
decode_update (shortcut_request name url icon refresh) =
    some (record { name = name; url = url; icon_id = icon; refresh_icon = refresh })
decode_update _ = some (record { name = none; url = none; icon_id = none; refresh_icon = false })

abbrev pub answer_written : Checked Shortcut × Store → Response × Store
answer_written (fine sc, t) = (record { status = 200; answer = shortcut sc }, t)
answer_written (bad e, t) = (write_shortcut_error e, t)

abbrev pub answer_created : Checked Shortcut × Store → Response × Store
answer_created (fine sc, t) = (record { status = 201; answer = shortcut sc }, t)
answer_created (bad e, t) = (write_shortcut_error e, t)

abbrev pub answer_deleted : Checked Unit × Store → Response × Store
answer_deleted (fine x, t) = (plain 204, t)
answer_deleted (bad e, t) = (write_shortcut_error e, t)

module _ (parse : String → Option (String × String)) (exists : String → Bool)
    (fetch : String → Option String) where
  abbrev pub create_decoded : Env → Option CreateShortcut → Store → Response × Store
  create_decoded env none s = (json_error 400 "invalid_body", s)
  create_decoded env (some req) s =
      answer_created
        (create parse exists fetch env.faults env.new_id req.name req.url req.icon_id s)

  -- `handleCreate`
  unfoldable pub handle_create : Env → Request → Store → Response × Store
  handle_create env r s = create_decoded env (decode_create r.body) s

  abbrev pub update_decoded : Env → String → Option UpdateInput → Store → Response × Store
  update_decoded env id none s = (json_error 400 "invalid_body", s)
  update_decoded env id (some input) s =
      answer_written (update_shortcut parse exists fetch env.faults id input s)

  -- `handleUpdate`
  unfoldable pub handle_update : Env → Request → Store → Response × Store
  handle_update env r s = update_decoded env r.path_id (decode_update r.body) s

-- `handleDelete`
unfoldable pub handle_delete : Env → Request → Store → Response × Store
handle_delete env r s = answer_deleted (delete env.faults r.path_id s)
