-- ===== src/Icons/Favicon.antt =====
-- internal/icons/favicon.go: which addresses are dialled for an icon, and how one is fetched,
-- turned into a PNG and saved. A mask of bits is a division, and an address is that of Http.
pub mod Blocking
pub mod Fetching
mod Tests
use a6_core.Prelude.{
  ℕ, ◌+◌, ◌*◌, ◌/◌, ◌%◌, String, Bool, true, false, not, Option, none, some, List, [], ◌∷◌, length,
  ltb, leb, eqb, ◌==◌, ◌&&◌, ◌||◌, take, if◌then◌else◌,
}
use a6_core.Slices.{parsed, failed, panicked}
use a6_core.Http.{Ip, v4, v6, is_loopback}
use a6_core.Icons.{Bytes, Files, Checked, fine, bad, save, max_icon_size}
use a6_core.Icons.Ico.{Pixel, IcoError, Read, decode_ico_to_png}

-- `IP.IsPrivate`
abbrev pub is_private : Ip → Bool
is_private (v4 a b c d) = eqb a 10 || (eqb a 172 && eqb (b / 16) 1) || (eqb a 192 && eqb b 168)
is_private (v6 (g ∷ gs)) = eqb (g / 512) 126
is_private (v6 []) = false

-- `IP.IsLinkLocalUnicast`
abbrev pub is_link_local_unicast : Ip → Bool
is_link_local_unicast (v4 a b c d) = eqb a 169 && eqb b 254
is_link_local_unicast (v6 (g ∷ gs)) = eqb (g / 64) 1018
is_link_local_unicast (v6 []) = false

-- `IP.IsLinkLocalMulticast`
abbrev pub is_link_local_multicast : Ip → Bool
is_link_local_multicast (v4 a b c d) = eqb a 224 && eqb b 0 && eqb c 0
is_link_local_multicast (v6 (g ∷ gs)) = eqb (g / 256) 255 && eqb (g % 16) 2
is_link_local_multicast (v6 []) = false

-- `IP.IsMulticast`
abbrev pub is_multicast : Ip → Bool
is_multicast (v4 a b c d) = eqb (a / 16) 14
is_multicast (v6 (g ∷ gs)) = eqb (g / 256) 255
is_multicast (v6 []) = false

abbrev all_zero : List ℕ → Bool
all_zero [] = true
all_zero (g ∷ gs) = eqb g 0 && all_zero gs

-- `IP.IsUnspecified`
abbrev pub is_unspecified : Ip → Bool
is_unspecified (v4 a b c d) = eqb a 0 && eqb b 0 && eqb c 0 && eqb d 0
is_unspecified (v6 gs) = all_zero gs

-- whether `extraBlockedRanges` has it
abbrev pub in_extra_ranges : Ip → Bool
in_extra_ranges (v4 a b c d) = eqb a 100 && eqb (b / 64) 1
in_extra_ranges (v6 gs) = false

unfoldable pub is_blocked_ip : Option Ip → Bool
is_blocked_ip none = true
is_blocked_ip (some ip) =
    is_loopback ip
    || is_private ip
    || is_link_local_unicast ip
    || is_link_local_multicast ip
    || is_unspecified ip
    || is_multicast ip
    || in_extra_ranges ip

pub data DialError : Type 0 where
  invalid_address not_resolved no_addresses blocked_address : DialError

-- a refusal, or the address that is dialled with the port
pub data Dial : Type 0 where
  refused_dial : DialError → Dial
  dial : Option Ip → String → Dial

abbrev pub any_blocked : List (Option Ip) → Bool
unfolding is_blocked_ip
any_blocked [] = false
any_blocked (ip ∷ ips) = is_blocked_ip ip || any_blocked ips

abbrev pub dial_first : String → List (Option Ip) → Dial
dial_first port [] = refused_dial no_addresses
dial_first port (ip ∷ ips) =
    if any_blocked (ip ∷ ips) then refused_dial blocked_address else dial ip port

abbrev pub dial_resolved : String → Option (List (Option Ip)) → Dial
dial_resolved port none = refused_dial not_resolved
dial_resolved port (some ips) = dial_first port ips

-- `safeDialContext`; `address` is what `SplitHostPort` makes of it, and `lookup` is `LookupIP`
unfoldable pub safe_dial_context :
    (String → Option (List (Option Ip))) → Option (String × String) → Dial
safe_dial_context lookup none = refused_dial invalid_address
safe_dial_context lookup (some (host, port)) = dial_resolved port (lookup host)

abbrev pub is_web : String → Bool
is_web scheme = scheme == "http" || scheme == "https"

-- `CheckRedirect`: whether a redirect to this scheme, after so many requests, is followed
unfoldable pub check_redirect : String → ℕ → Bool
check_redirect scheme via = is_web scheme && not (leb 5 via)

-- what `faviconClient.Do` and `io.ReadAll` come to; `body` has at most one byte more than an icon
-- may
pub data Fetch : Type 0 where
  no_response : Fetch
  response : ℕ → Option Bytes → Fetch

pub data FetchError : Type 0 where
  bad_url bad_scheme not_fetched bad_status not_read too_large not_converted not_saved : FetchError

pub data Fetched : Type 0 where
  icon : String → Fetched
  unavailable : FetchError → Fetched
  crashed : Fetched

-- the calls that a fetch makes to the outside: the request for a URL, `DetectContentType` of at
-- most 512 bytes, and `png.Encode`
pub record Web : Type 0 where
  pub get : String → Fetch
  pub detect : Bytes → String
  pub encode : List (List Pixel) → Option Bytes

abbrev pub save_fetched : Checked String × Files → Fetched × Files
save_fetched (fine id, files) = (icon id, files)
save_fetched (bad e, files) = (unavailable not_saved, files)

module _ (web : Web) (ok : Bool) (id : String) where
  abbrev pub save_converted : Read Bytes → Files → Fetched × Files
  unfolding save
  save_converted (parsed data_bytes) files = save_fetched (save web.detect ok id data_bytes files)
  save_converted (failed e) files = (unavailable not_converted, files)
  save_converted panicked files = (crashed, files)

  abbrev pub converted : Bytes → Read Bytes
  unfolding decode_ico_to_png
  converted data_bytes =
      if web.detect (take 512 data_bytes) == "image/x-icon"
      then decode_ico_to_png web.encode data_bytes
      else parsed data_bytes

  abbrev pub take_body : Option Bytes → Files → Fetched × Files
  take_body none files = (unavailable not_read, files)
  take_body (some data_bytes) files =
      if ltb max_icon_size (length data_bytes)
      then (unavailable too_large, files)
      else save_converted (converted data_bytes) files

  abbrev pub take_response : Fetch → Files → Fetched × Files
  take_response no_response files = (unavailable not_fetched, files)
  take_response (response status body) files =
      if eqb status 200 then take_body body files else (unavailable bad_status, files)

  -- `FetchFavicon`; `origin` is the scheme and the host that `url.Parse` finds, and `join` their
  -- concatenation with the path of icons
  unfoldable pub fetch_favicon :
      (String → String → String) → Option (String × String) → Files → Fetched × Files
  fetch_favicon join none files = (unavailable bad_url, files)
  fetch_favicon join (some (scheme, host)) files =
      if is_web scheme
      then take_response (web.get (join scheme host)) files
      else (unavailable bad_scheme, files)
