-- ===== src/Server/Cloud.antt =====
-- internal/server/cloud_handlers.go: the handlers of stored files, and the gate before them.
pub mod Privacy
pub mod Uploads
mod Tests
use a6_core.Prelude.{
  ℕ, ◌*◌, ◌^◌, ltb, take, if◌then◌else◌, String, Bool, true, false, Option, none, some, List, [],
  ◌∷◌, cut_prefix,
}
use a6_core.State.Types.{CloudUser, CloudFile}
use a6_core.State.Disk.Calls.{Faults}
use a6_core.Cloud.Accounts.{
  Crypto, CloudError, file_not_found, not_owner, Returned, returned, failed, validate_session,
}
use a6_core.Cloud.Files.{
  Bytes, Cloud, FileDraw, FileFaults, save_file, open_file, delete_file, list_files,
}
use a6_core.Http.{Request}
use a6_core.Auth.CloudSession.{require_session}

-- an answer: a file with its type, a list of files, or a status with the code of an error
pub data FileAnswer : Type 0 where
  content : String → Bytes → FileAnswer
  listing : List CloudFile → FileAnswer
  no_content : FileAnswer
  created : CloudFile → FileAnswer
  failure : ℕ → String → FileAnswer

abbrev pub CloudHandler : Type 0
CloudHandler = Option CloudUser → Request → Cloud → FileAnswer × Cloud

-- `writeCloudFileError`
unfoldable pub write_cloud_file_error : CloudError → FileAnswer
write_cloud_file_error file_not_found = failure 404 "file_not_found"
write_cloud_file_error not_owner = failure 404 "file_not_found"
write_cloud_file_error _ = failure 500 "file_error"

abbrev pub no_user : FileAnswer
no_user = failure 500 "no_user_context"

abbrev pub answer_opened : Returned (CloudFile × Bytes) → FileAnswer
answer_opened (returned (rec, bytes)) = content rec.mime_type bytes
answer_opened (failed e) = write_cloud_file_error e

-- `handleGetFile`; `fault` is whether opening the stored file fails
unfoldable pub handle_get_file : Bool → CloudHandler
handle_get_file fault none r s = (no_user, s)
handle_get_file fault (some u) r s = (answer_opened (open_file fault u.id r.path_id s), s)

abbrev pub answer_deleted : Returned Unit × Cloud → FileAnswer × Cloud
answer_deleted (returned x, t) = (no_content, t)
answer_deleted (failed e, t) = (write_cloud_file_error e, t)

-- `handleDeleteFile`
unfoldable pub handle_delete_file : Bool → Faults → CloudHandler
handle_delete_file fault faults none r s = (no_user, s)
handle_delete_file fault faults (some u) r s =
    answer_deleted (delete_file fault faults u.id r.path_id s)

-- `handleListFiles`; `category` is that of the query
unfoldable pub handle_list_files : String → CloudHandler
handle_list_files category none r s = (no_user, s)
handle_list_files category (some u) r s = (listing (list_files u.id category s), s)

-- what `ParseMultipartForm` and `FormFile` make of a body, whose size is given
pub data Form : Type 0 where
  not_a_form no_file : Form
  file : String → Bytes → Form

abbrev max_upload_bytes : ℕ
max_upload_bytes = 500 * 2 ^ 20

-- `MaxBytesReader` makes the parse of a longer body fail
abbrev pub limited : ℕ → Form → Form
limited size form = if ltb max_upload_bytes size then not_a_form else form

abbrev pub answer_saved : Returned CloudFile × Cloud → FileAnswer × Cloud
answer_saved (returned rec, t) = (created rec, t)
answer_saved (failed e, t) = (failure 500 "save_failed", t)

-- `extensions` is the system's table of types, and `detect` is `http.DetectContentType`
module _ (extensions : String → Option String) (detect : Bytes → String) where
  abbrev pub save_form : FileDraw → FileFaults → Faults → String → Cloud → Form → FileAnswer × Cloud
  save_form draw ff faults owner s not_a_form = (failure 400 "invalid_upload", s)
  save_form draw ff faults owner s no_file = (failure 400 "missing_file", s)
  save_form draw ff faults owner s (file filename bytes) =
      answer_saved
        (save_file extensions draw ff faults owner filename (detect (take 512 bytes)) bytes s)

  -- `handleUpload`
  unfoldable pub handle_upload : FileDraw → FileFaults → Faults → ℕ → Form → CloudHandler
  handle_upload draw ff faults size form none r s = (no_user, s)
  handle_upload draw ff faults size form (some u) r s =
      save_form draw ff faults u.id s (limited size form)

-- `RequireCloudSession` before a handler of stored files
unfoldable pub require_cloud_session : Crypto → CloudHandler → Request → Cloud → FileAnswer × Cloud
require_cloud_session c next r s =
    require_session c (λ (s : Cloud). s.store) (failure 401) (λ u. next (some u) r s) r s
