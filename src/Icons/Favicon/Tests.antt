-- ===== src/Icons/Favicon/Tests.antt =====
-- Fetching icons at concrete answers.
use a6_core.Prelude.{
  String, true, false, Option, none, some, List, [], ◌∷◌, ◌≡◌, refl, ◌==◌, if◌then◌else◌,
}
use a6_core.Http.{Ip, v4}
use a6_core.Icons.{Files}
use a6_core.Icons.Ids.{is_icon_id}
use a6_core.Icons.Favicon.{
  refused_dial, dial, blocked_address, safe_dial_context, any_blocked, check_redirect, response,
  icon, unavailable, bad_scheme, Web, fetch_favicon, save_converted, converted,
}
use a6_core.Icons.Favicon.Blocking.{DialEnds, only_public_dials}
use a6_core.Icons.Favicon.Fetching.{FetchEnds, fetch_favicon_lem}

-- a name server: one host is public, the other has an address of this machine as well
abbrev lookup : String → Option (List (Option Ip))
lookup host =
    if host == "example.org"
    then some (some (v4 93 184 216 34) ∷ [])
    else some (some (v4 93 184 216 34) ∷ some (v4 127 0 0 1) ∷ [])

only_public_dials_example :
    DialEnds lookup
      (some ("example.org", "443"))
      (safe_dial_context lookup (some ("example.org", "443")))
only_public_dials_example = only_public_dials lookup (some ("example.org", "443"))

public_dialled :
    safe_dial_context lookup (some ("example.org", "443")) ≡ dial (some (v4 93 184 216 34)) "443"
unfolding safe_dial_context any_blocked
public_dialled = refl

local_refused : safe_dial_context lookup (some ("evil.org", "80")) ≡ refused_dial blocked_address
unfolding safe_dial_context any_blocked
local_refused = refl

abbrev drawn : String
drawn = "01234567-89ab-cdef-0123-456789abcdef"

abbrev empty : Files
empty id ext = none

abbrev site : Web
site = record {
  get = λ url. response 200 (some (137 ∷ 80 ∷ []));
  detect = λ data_bytes. "image/png";
  encode = λ rows. none;
}

abbrev favicon_of : String → String → String
favicon_of scheme host = "https://example.org/favicon.ico"

drawn_shape : is_icon_id drawn ≡ true
unfolding is_icon_id
drawn_shape = refl

fetch_favicon_lem_example :
    FetchEnds site true drawn empty favicon_of
      (some ("https", "example.org"))
      (fetch_favicon site true drawn favicon_of (some ("https", "example.org")) empty)
fetch_favicon_lem_example =
    fetch_favicon_lem site true drawn empty drawn_shape (refl, refl) favicon_of
      (some ("https", "example.org"))

fetched :
    (fetch_favicon site true drawn favicon_of (some ("https", "example.org")) empty).0 ≡ icon drawn
unfolding fetch_favicon save_converted converted
fetched = refl

other_scheme :
    (fetch_favicon site true drawn favicon_of (some ("ftp", "example.org")) empty).0
    ≡ unavailable bad_scheme
unfolding fetch_favicon
other_scheme = refl

sixth_redirect : check_redirect "https" 5 ≡ false
unfolding check_redirect
sixth_redirect = refl
