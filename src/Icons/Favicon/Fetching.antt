-- ===== src/Icons/Favicon/Fetching.antt =====
-- Fetching an icon ends with an icon that is served, or changes nothing.
use a6_core.Prelude.{
  ◌⊎◌, ◌≢◌, false, if◌then◌else◌, inl, inr, Bool-cases, eq_of_test, ne_of_test, sym, ◌∙◌, ap, ◌||◌,
  ◌≤◌, String, Bool, true, Option, none, some, ◌≡◌, refl, if_lem, length, ltb, eqb, take, arith,
  ◌==◌,
}
use a6_core.Slices.{parsed, failed, panicked, parsed-IsSafe, IsSafe}
use a6_core.Icons.{Bytes, Files, Checked, fine, bad, save, max_icon_size}
use a6_core.Icons.Ids.{is_icon_id}
use a6_core.Icons.Storing.{IsFree, Serves, SaveEnds, save_lem}
use a6_core.Icons.Ico.{Read, decode_ico_to_png}
use a6_core.Icons.Ico.Bounds.{decode_ico_stays_in_range}
use a6_core.Icons.Favicon.{
  Fetch, no_response, response, Fetched, icon, unavailable, crashed, Web, save_fetched,
  save_converted, converted, take_body, take_response, is_web, fetch_favicon,
}

-- The other side answered the request for the icon of this origin with the status 200 and this body.
abbrev pub Answered : Web → (String → String → String) → Option (String × String) → Bytes → Type 0
Answered web join none body = ⊥
Answered web join (some (scheme, host)) body =
    ((scheme ≡ "http") ⊎ (scheme ≡ "https"))
    × (web.get (join scheme host) ≡ response 200 (some body))

-- What is stored of a body: the PNG in it if it looks like an .ico file, and else the body.
abbrev pub Converts : Web → Bytes → Bytes → Type 0
Converts web body content =
    ((web.detect (take 512 body) ≡ "image/x-icon")
      × (decode_ico_to_png web.encode body ≡ parsed content))
    ⊎ ((web.detect (take 512 body) ≢ "image/x-icon") × (content ≡ body))

or_test : (a b : Bool) → (a || b) ≡ true → a ≡ false → b ≡ true
or_test true b h e = absurd (cc e)
or_test false b h e = h

converted-Converts :
    (web : Web) (ok : Bool) (id : String) (body content : Bytes)
    → converted web ok id body ≡ parsed content
    → Converts web body content
unfolding converted
converted-Converts web ok id body content h =
    elim (Bool-cases (web.detect (take 512 body) == "image/x-icon")) [
      | inl e ↦ inl (
        eq_of_test (web.detect (take 512 body)) "image/x-icon" e,
        sym (ap (λ b. if b then decode_ico_to_png web.encode body else parsed body) e) ∙ h,
      )
      | inr e ↦ inr (
        ne_of_test (web.detect (take 512 body)) "image/x-icon" e,
        cc (sym (ap (λ b. if b then decode_ico_to_png web.encode body else parsed body) e) ∙ h),
      )
    ]

module _ (web : Web) (ok : Bool) (id : String) (files : Files) (join : String → String → String)
    (origin : Option (String × String)) where
  abbrev pub FetchEnds : Fetched × Files → Type 0
  FetchEnds (icon i, t) =
      (i ≡ id)
      × ((body : Bytes) × (content : Bytes) × Answered web join origin body
          × Converts web body content
          × (length content ≤ max_icon_size)
          × Serves web.detect id content t)
  FetchEnds (unavailable e, t) = t ≡ files
  FetchEnds (crashed, t) = ⊥

  module _ (valid : is_icon_id id ≡ true) (free : IsFree id files) where
    saved_lem :
        (body content : Bytes) (result : Checked String × Files)
        → Answered web join origin body
        → converted web ok id body ≡ parsed content
        → SaveEnds web.detect id content files result
        → FetchEnds (save_fetched result)
    saved_lem body content (fine i, t) got from h =
        (h.0, (body, content, got, converted-Converts web ok id body content from, h.1, h.2))
    saved_lem body content (bad e, t) got from h = h

    save_converted_lem :
        (body : Bytes) (read : Read Bytes)
        → Answered web join origin body
        → converted web ok id body ≡ read
        → IsSafe read
        → FetchEnds (save_converted web ok id read files)
    unfolding save_converted
    save_converted_lem body (parsed content) got from h =
        saved_lem body content (save web.detect ok id content files) got from
          (save_lem web.detect id content files valid free ok)
    save_converted_lem body (failed e) got from h = refl
    save_converted_lem body panicked got from h = h refl

    converted-IsSafe :
        (content : Bytes) → length content ≤ max_icon_size → IsSafe (converted web ok id content)
    unfolding converted
    converted-IsSafe content small =
        if_lem IsSafe (web.detect (take 512 content) == "image/x-icon")
          (decode_ico_to_png web.encode content) (parsed content)
          (λ _. decode_ico_stays_in_range web.encode content small) (λ _. parsed-IsSafe content)

    take_body_lem :
        (body : Option Bytes)
        → ((content : Bytes) → body ≡ some content → Answered web join origin content)
        → FetchEnds (take_body web ok id body files)
    take_body_lem none got = refl
    take_body_lem (some content) got =
        if_lem FetchEnds (ltb max_icon_size (length content)) _ _ (λ _. refl)
          (λ fits.
            save_converted_lem content (converted web ok id content) (got content refl) refl
              (converted-IsSafe content (ground (arith, fits))))

    take_response_lem :
        (fetch : Fetch)
        → ((content : Bytes)
            → fetch ≡ response 200 (some content)
            → Answered web join origin content)
        → FetchEnds (take_response web ok id fetch files)
    take_response_lem no_response got = refl
    take_response_lem (response status body) got =
        if_lem FetchEnds (eqb status 200) _ _
          (λ e.
            let ok : status ≡ 200 = ground (arith, e) in
            take_body_lem body (λ content b. got content (cc (ok, b))))
          (λ _. refl)

web_scheme : (scheme : String) → is_web scheme ≡ true → (scheme ≡ "http") ⊎ (scheme ≡ "https")
web_scheme scheme h = elim (Bool-cases (scheme == "http")) [
  | inl e ↦ inl (eq_of_test scheme "http" e)
  | inr e ↦ inr (eq_of_test scheme "https" (or_test (scheme == "http") (scheme == "https") h e))
]

-- Fetching the icon of a shortcut, under a drawn id of the right shape that no icon has, never
-- panics, whatever the other side answers. It ends with that id only if the address is one of the web
-- and the request for it was answered with the status 200; then that body, turned into a PNG if it is an
-- .ico file and else as it is, is served for the id and has at most 512 KB. Or the icon is
-- unavailable and no file changed.
pub fetch_favicon_lem :
    (web : Web) (ok : Bool) (id : String) (files : Files)
    → is_icon_id id ≡ true
    → IsFree id files
    → (join : String → String → String) (origin : Option (String × String))
    → FetchEnds web ok id files join origin (fetch_favicon web ok id join origin files)
unfolding fetch_favicon
fetch_favicon_lem web ok id files valid free join none = refl
fetch_favicon_lem web ok id files valid free join (some (scheme, host)) =
    if_lem (FetchEnds web ok id files join (some (scheme, host))) (is_web scheme) _ _
      (λ e.
        take_response_lem web ok id files join (some (scheme, host)) valid free
          (web.get (join scheme host)) (λ content h. (web_scheme scheme e, h)))
      (λ _. refl)
