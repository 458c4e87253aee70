-- ===== src/Auth/Middleware/Tests.antt =====
-- The gates at concrete requests.
use a6_core.Http.{Handler, plain}
use a6_core.Server.App.{App}

accepts_all : Handler App
accepts_all _ _ _ s = (plain 202, s)
