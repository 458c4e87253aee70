-- ===== src/Server/Icons.antt =====
-- internal/server/icon_handlers.go, over internal/icons/icons.go. What `FormFile` and `ReadAll`
-- make of a body that `MaxBytesReader` limits is an argument.
pub mod Uploading
mod Tests
use a6_core.Prelude.{ℕ, String, Bool, false, Option, none, some, ◌==◌, if◌then◌else◌}
use a6_core.Icons.{
  Bytes, Files, IconError, too_large, unsupported_type, not_found, invalid_id, Checked, fine, bad,
  Order, save, get,
}

-- a form without the file, a body that cannot be read to its end within the limit, or the bytes
pub data Upload : Type 0 where
  no_file unread : Upload
  bytes : Bytes → Upload

-- an icon that was made, with its id and its extension; the contents of one with their type; or an
-- error
pub data IconAnswer : Type 0 where
  made : String → String → IconAnswer
  content : String → Bytes → IconAnswer
  failure : ℕ → String → IconAnswer

abbrev pub write_save_error : IconError → IconAnswer
write_save_error too_large = failure 413 "too_large"
write_save_error unsupported_type = failure 400 "unsupported_type"
write_save_error _ = failure 500 "save_failed"

abbrev pub type_of : Checked (Bytes × String) → String
type_of (fine (data_bytes, type)) = type
type_of (bad e) = ""

abbrev pub ext_of : String → String
ext_of type = if type == "image/jpeg" then ".jpg" else ".png"

module _ (detect : Bytes → String) (ok : Bool) (id : String) (fault : Bool) (order : Order) where
  abbrev pub answer_saved : Checked String × Files → IconAnswer × Files
  unfolding get
  answer_saved (bad e, files) = (write_save_error e, files)
  answer_saved (fine i, files) = (made i (ext_of (type_of (get detect fault order i files))), files)

  -- `handleUpload`; `fault` is whether reading the saved icon fails
  unfoldable pub handle_upload : Upload → Files → IconAnswer × Files
  unfolding save
  handle_upload no_file files = (failure 400 "missing_file", files)
  handle_upload unread files = (failure 413 "too_large", files)
  handle_upload (bytes data_bytes) files = answer_saved (save detect ok id data_bytes files)

abbrev pub answer_got : Checked (Bytes × String) → IconAnswer
answer_got (fine (data_bytes, type)) = content type data_bytes
answer_got (bad not_found) = failure 404 "not_found"
answer_got (bad invalid_id) = failure 404 "not_found"
answer_got (bad e) = failure 500 "read_failed"

-- `handleGet`
unfoldable pub handle_get : (Bytes → String) → Bool → Order → String → Files → IconAnswer
unfolding get
handle_get detect fault order id files = answer_got (get detect fault order id files)

-- `handleGetDefault`, with the icon that the build embeds
abbrev handle_get_default : Bytes → IconAnswer
handle_get_default default = content "image/png" default
