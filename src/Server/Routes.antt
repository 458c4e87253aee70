-- ===== src/Server/Routes.antt =====
-- internal/server/server.go: the routes that `New` registers, and what `http.ServeMux` makes of them: the
-- first row whose pattern fits, which of two that fit is the one with the literal. A HEAD request also
-- fits the patterns of GET.
pub mod Required
pub mod Authority
mod Tests
use a6_core.Prelude.{
  String, Bool, true, false, Option, none, some, List, [], ◌∷◌, ◌==◌, ◌&&◌, ◌||◌, find, any,
  if◌then◌else◌,
}
use a6_core.State.Store.{Store}
use a6_core.Cloud.Accounts.{Crypto}
use a6_core.Auth.CloudSession.{session_gate}
use a6_core.Auth.Middleware.{HasStore, require_device, require_primary, require_localhost}
use a6_core.Http.{
  Method, get, head, post, put, delete, other_method, Request, Response, plain, Context, Env,
  Handler,
}

-- what a handler stands behind; the handlers of the streams check the key themselves
pub data Gate : Type 0 where
  unguarded localhost device primary session own : Gate

-- the handlers
pub data Endpoint : Type 0 where
  health pair_generate pair info state devices_list me device_delete device_promote modes : Endpoint
  system_info reboot shutdown shortcut_list shortcut_create shortcut_update shortcut_delete :
      Endpoint
  icon_upload icon_get_default icon_get app_current app_launch app_close retro_consoles : Endpoint
  retro_games retro_launch display_sleep cloud_register cloud_login cloud_logout cloud_me : Endpoint
  cloud_upload cloud_list_files cloud_get_file cloud_delete_file server_list server_get : Endpoint
  server_start server_stop events_stream input_stream : Endpoint

-- `path` are the segments of the pattern; without a method it fits all
pub record Route : Type 0 where
  pub method : Option Method
  pub path : List String
  pub gate : Gate
  pub endpoint : Endpoint

abbrev pub any_method : List String → Gate → Endpoint → Route
any_method path gate endpoint = record {
  method = none;
  path = path;
  gate = gate;
  endpoint = endpoint;
}

abbrev route : Option Method → List String → Gate → Endpoint → Route
route method path gate endpoint = record {
  method = method;
  path = path;
  gate = gate;
  endpoint = endpoint;
}

-- `New`
abbrev pub routes : List Route
routes =
    route (some get) ("healthz" ∷ []) unguarded health
    ∷ route (some post) ("v1" ∷ "pair" ∷ "generate" ∷ []) localhost pair_generate
    ∷ route (some post) ("v1" ∷ "pair" ∷ []) unguarded pair
    ∷ route (some get) ("v1" ∷ "info" ∷ []) device info
    ∷ any_method ("v1" ∷ "state" ∷ []) device state
    ∷ route (some get) ("v1" ∷ "devices" ∷ []) device devices_list
    ∷ route (some get) ("v1" ∷ "me" ∷ []) device me
    ∷ route (some delete) ("v1" ∷ "devices" ∷ "{id}" ∷ []) device device_delete
    ∷ route (some post) ("v1" ∷ "devices" ∷ "{id}" ∷ "promote" ∷ []) primary device_promote
    ∷ any_method ("v1" ∷ "modes" ∷ []) device modes
    ∷ route (some get) ("v1" ∷ "system" ∷ "info" ∷ []) device system_info
    ∷ any_method ("v1" ∷ "system" ∷ "reboot" ∷ []) device reboot
    ∷ any_method ("v1" ∷ "system" ∷ "shutdown" ∷ []) primary shutdown
    ∷ route (some get) ("v1" ∷ "shortcuts" ∷ []) device shortcut_list
    ∷ route (some post) ("v1" ∷ "shortcuts" ∷ []) device shortcut_create
    ∷ route (some put) ("v1" ∷ "shortcuts" ∷ "{id}" ∷ []) device shortcut_update
    ∷ route (some delete) ("v1" ∷ "shortcuts" ∷ "{id}" ∷ []) device shortcut_delete
    ∷ route (some post) ("v1" ∷ "icons" ∷ []) device icon_upload
    ∷ route (some get) ("v1" ∷ "icons" ∷ "default" ∷ []) device icon_get_default
    ∷ route (some get) ("v1" ∷ "icons" ∷ "{id}" ∷ []) device icon_get
    ∷ route (some get) ("v1" ∷ "apps" ∷ "current" ∷ []) device app_current
    ∷ route (some post) ("v1" ∷ "apps" ∷ "launch" ∷ []) device app_launch
    ∷ route (some post) ("v1" ∷ "apps" ∷ "close" ∷ []) device app_close
    ∷ route (some get) ("v1" ∷ "retro" ∷ "consoles" ∷ []) device retro_consoles
    ∷ route (some get) ("v1" ∷ "retro" ∷ "games" ∷ []) device retro_games
    ∷ route (some post) ("v1" ∷ "retro" ∷ "launch" ∷ []) device retro_launch
    ∷ route (some post) ("v1" ∷ "display" ∷ "sleep" ∷ []) device display_sleep
    ∷ route (some post) ("v1" ∷ "cloud" ∷ "register" ∷ []) device cloud_register
    ∷ route (some post) ("v1" ∷ "cloud" ∷ "login" ∷ []) device cloud_login
    ∷ route (some post) ("v1" ∷ "cloud" ∷ "logout" ∷ []) session cloud_logout
    ∷ route (some get) ("v1" ∷ "cloud" ∷ "me" ∷ []) session cloud_me
    ∷ route (some post) ("v1" ∷ "cloud" ∷ "upload" ∷ []) session cloud_upload
    ∷ route (some get) ("v1" ∷ "cloud" ∷ "files" ∷ []) session cloud_list_files
    ∷ route (some get) ("v1" ∷ "cloud" ∷ "files" ∷ "{id}" ∷ []) session cloud_get_file
    ∷ route (some delete) ("v1" ∷ "cloud" ∷ "files" ∷ "{id}" ∷ []) session cloud_delete_file
    ∷ route (some get) ("v1" ∷ "servers" ∷ []) device server_list
    ∷ route (some get) ("v1" ∷ "servers" ∷ "{id}" ∷ []) device server_get
    ∷ route (some post) ("v1" ∷ "servers" ∷ "{id}" ∷ "start" ∷ []) device server_start
    ∷ route (some post) ("v1" ∷ "servers" ∷ "{id}" ∷ "stop" ∷ []) device server_stop
    ∷ route (some get) ("v1" ∷ "events" ∷ []) own events_stream
    ∷ route (some get) ("v1" ∷ "input" ∷ []) own input_stream
    ∷ []

abbrev same_method : Method → Method → Bool
same_method get get = true
same_method get head = true
same_method post post = true
same_method put put = true
same_method delete delete = true
same_method _ _ = false

abbrev fits_method : Option Method → Method → Bool
fits_method none m = true
fits_method (some n) m = same_method n m

abbrev fits_path : List String → List String → Bool
fits_path [] [] = true
fits_path (p ∷ ps) (s ∷ ss) = (p == "{id}" || p == s) && fits_path ps ss
fits_path _ _ = false

abbrev pub fits : Method → List String → Route → Bool
fits m path t = fits_method t.method m && fits_path t.path path

module _ {S : Type 0} (access : HasStore S) (hash : String → String) (c : Crypto) where
  -- a handler behind its gates
  abbrev pub guard : Gate → Handler S → Handler S
  guard unguarded next = next
  guard localhost next = require_localhost next
  guard device next = require_device access hash next
  guard primary next = require_device access hash (require_primary next)
  guard session next = session_gate c access.store next
  guard own next = next

  module _ (handlers : Endpoint → Handler S) where
    abbrev pub serve_found : List String → Env → Context → Request → S → Option Route → Response × S
    serve_found path env ctx r s none =
        (plain (if any (λ t. fits_path t.path path) routes then 405 else 404), s)
    serve_found path env ctx r s (some t) = guard t.gate (handlers t.endpoint) env ctx r s

    -- what the server does with a request
    unfoldable pub serve : List String → Handler S
    serve path env ctx r s = serve_found path env ctx r s (find (fits r.method path) routes)
