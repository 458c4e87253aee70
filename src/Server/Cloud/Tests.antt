-- ===== src/Server/Cloud/Tests.antt =====
-- Stored files at a concrete request.
use a6_core.Prelude.{
  String, Option, none, false, some, [], ◌∷◌, ◌≡◌, refl, inr, ne_of_test, cut_prefix,
}
use a6_core.Samples.{crypto, empty_state, store_of, calm, request}
use a6_core.State.Types.{CloudUser, CloudFile}
use a6_core.State.Store.{snapshot}
use a6_core.Cloud.Accounts.{validate_session}
use a6_core.Cloud.Files.{Cloud, FileDraw, FileFaults}
use a6_core.Http.{Request, malformed}
use a6_core.Server.Cloud.{
  failure, handle_get_file, handle_delete_file, require_cloud_session, Form, file, limited,
  handle_upload,
}
use a6_core.Server.Cloud.Uploads.{FormEnds, handle_upload_lem}
use a6_core.Server.Cloud.Privacy.{others_files_look_absent}

abbrev ada : CloudUser
ada = record { id = "u1"; username = "ada"; password_hash = "correct horse"; created_at = 1 }

abbrev photo_of_bob : CloudFile
photo_of_bob = record {
  id = "f1";
  owner_id = "u2";
  category = "photo";
  filename = "a.png";
  stored_name = "s1.png";
  size_bytes = 1;
  mime_type = "image/png";
  uploaded_at = 5;
}

abbrev cloud : Cloud
cloud = record {
  store = store_of (record empty_state {
    cloud_users = ada ∷ [];
    cloud_sessions = record { id = "x"; user_id = "u1"; token_hash = "t0"; created_at = 2 } ∷ [];
    cloud_files = photo_of_bob ∷ [];
  });
  stored = λ o c n. some (7 ∷ []);
}

abbrev asked : Request
asked = request "Bearer t0" "f1" malformed

others_files_look_absent_example :
    (require_cloud_session crypto (handle_get_file false) asked cloud
      ≡ (failure 404 "file_not_found", cloud))
    × (require_cloud_session crypto (handle_delete_file false calm) asked cloud
        ≡ (failure 404 "file_not_found", cloud))
unfolding validate_session snapshot cut_prefix
others_files_look_absent_example =
    others_files_look_absent crypto false calm asked cloud "t0" ada refl refl
      (inr (photo_of_bob, refl, ne_of_test "u2" "u1" refl))

abbrev no_extensions : String → Option String
no_extensions mime = none

abbrev file_draw : FileDraw
file_draw = record { stored_id = "s2"; id = "f2"; now = 9 }

abbrev no_faults : FileFaults
no_faults = record { mkdir = false; create = false; cut = none }

abbrev picture : Form
picture = file "a.png" (7 ∷ [])

handle_upload_lem_example : FormEnds ada cloud (limited 100 picture) (
    handle_upload no_extensions
      (λ bytes. "image/png")
      file_draw
      no_faults
      calm
      100
      picture
      (some ada)
      asked
      cloud)
handle_upload_lem_example =
    handle_upload_lem no_extensions (λ bytes. "image/png") file_draw no_faults calm 100 picture ada
      asked cloud refl
