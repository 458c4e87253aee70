-- ===== src/Server/System/Tests.antt =====
-- The actions at concrete requests.
use a6_core.Prelude.{[]}
use a6_core.Samples.{two_devices, app_of, request}
use a6_core.Http.{Request, Handler, plain, force_request}
use a6_core.Prelude.{false}
use a6_core.Server.Routes.{Endpoint}
use a6_core.Server.System.{Machine}

abbrev accepts_all : Endpoint → Handler Machine
accepts_all e _ _ _ m = (plain 202, m)

abbrev machine : Machine
machine = record { app = app_of two_devices; asked = [] }

abbrev asks : Request
asks = request "Bearer k2" "" (force_request false)
