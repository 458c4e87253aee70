-- ===== src/Server/Icons/Tests.antt =====
-- Uploads of icons at concrete bodies.
use a6_core.Prelude.{String, true, false, none, [], ◌∷◌, ◌≡◌, refl}
use a6_core.Icons.{Bytes, Files, png_first}
use a6_core.Icons.Ids.{is_icon_id}
use a6_core.Server.Icons.{bytes, made, failure, answer_saved, handle_upload, handle_get}

abbrev drawn : String
drawn = "01234567-89ab-cdef-0123-456789abcdef"

abbrev empty : Files
empty id ext = none

abbrev is_jpeg : Bytes → String
is_jpeg data_bytes = "image/jpeg"

abbrev photo : Bytes
photo = 255 ∷ 216 ∷ 255 ∷ []

drawn_shape : is_icon_id drawn ≡ true
unfolding is_icon_id
drawn_shape = refl

made_photo :
    (handle_upload is_jpeg true drawn false png_first (bytes photo) empty).0 ≡ made drawn ".jpg"
unfolding handle_upload answer_saved is_icon_id
made_photo = refl

no_such_icon : handle_get is_jpeg false png_first "default" empty ≡ failure 404 "not_found"
unfolding handle_get is_icon_id
no_such_icon = refl
