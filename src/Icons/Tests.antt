-- ===== src/Icons/Tests.antt =====
-- An icon saved and served at concrete bytes.
use a6_core.Slices.{parsed, panicked}
use a6_core.Icons.Ico.{Pixel, encoded, decode_dib_to_png, decode_ico_to_png}
use a6_core.Icons.Ico.Bounds.{decode_ico_stays_in_range}
use a6_core.Icons.Ico.Roundtrip.{dib, dib_roundtrip}
use a6_core.Prelude.{
  ℕ, ◌++◌, ◌≢◌, arith, List, [], ◌∷◌, String, true, Option, some, none, ◌≡◌, refl,
}
use a6_core.Icons.{Bytes, Files, fine, bad, unsupported_type, save}
use a6_core.Icons.Ids.{is_icon_id}

abbrev id_of_icon : String
id_of_icon = "01234567-89ab-cdef-0123-456789abcdef"

abbrev no_files : Files
no_files id ext = none

abbrev is_png : Bytes → String
is_png data_bytes = "image/png"

abbrev content_of_icon : Bytes
content_of_icon = 137 ∷ 80 ∷ 78 ∷ 71 ∷ []

has_shape : is_icon_id id_of_icon ≡ true
unfolding is_icon_id
has_shape = refl

saved_icon : (save is_png true id_of_icon content_of_icon no_files).0 ≡ fine id_of_icon
unfolding save
saved_icon = refl

refused_type :
    (save (λ data_bytes. "text/plain") true id_of_icon content_of_icon no_files).0
    ≡ bad unsupported_type
unfolding save
refused_type = refl

-- two pixels, one over the other
abbrev upper : Pixel
upper = record { red = 1; green = 2; blue = 3; alpha = 255 }

abbrev lower : Pixel
lower = record { red = 9; green = 8; blue = 7; alpha = 0 }

abbrev two_rows : List (List Pixel)
two_rows = (upper ∷ []) ∷ (lower ∷ []) ∷ []

-- stands in for an encoder of PNGs
abbrev first_reds : List (List Pixel) → Option (List ℕ)
first_reds [] = none
first_reds ([] ∷ rows) = none
first_reds ((p ∷ ps) ∷ rows) = some (p.red ∷ [])

dib_roundtrip_example :
    decode_dib_to_png first_reds (dib 1 two_rows (0 ∷ 0 ∷ [])) 1 2 ≡ encoded first_reds two_rows
dib_roundtrip_example = dib_roundtrip first_reds 1 two_rows (0 ∷ 0 ∷ []) (refl, (refl, tt))

-- an .ico file with one image of one pixel by two
abbrev icon_file : List ℕ
icon_file =
    (0 ∷ 0 ∷ 1 ∷ 0 ∷ 1 ∷ 0 ∷ 1 ∷ 2 ∷ 0 ∷ 0 ∷ 1 ∷ 0 ∷ 32 ∷ 0 ∷ 48 ∷ 0 ∷ 0 ∷ 0 ∷ 22 ∷ 0 ∷ 0 ∷ 0 ∷ [])
    ++ dib 1 two_rows []

decoded_file : decode_ico_to_png first_reds icon_file ≡ parsed (1 ∷ [])
unfolding decode_ico_to_png
decoded_file = refl

decode_ico_stays_in_range_example : decode_ico_to_png first_reds icon_file ≢ panicked
decode_ico_stays_in_range_example = decode_ico_stays_in_range first_reds icon_file (omega arith)
