-- ===== src/Server/Shortcuts/Tests.antt =====
-- Shortcuts at concrete requests.
use a6_core.Prelude.{String, false, Option, none, some}
use a6_core.Samples.{request}
use a6_core.Http.{Request, shortcut_request, malformed}

abbrev parse : String → Option (String × String)
parse raw = some ("https", "example.org")

abbrev films : Request
films =
    request "Bearer k2" "" (shortcut_request (some "Films") (some "https://example.org") none false)

abbrev gone : Request
gone = request "Bearer k2" "s9" malformed
