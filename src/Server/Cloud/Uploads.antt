-- ===== src/Server/Cloud/Uploads.antt =====
-- What is uploaded over HTTP is downloaded again.
use a6_core.Prelude.{ℕ, String, false, Option, some, ◌≡◌, refl, ◌∙◌, ap, ◌⊎◌, inl, inr, any, take}
use a6_core.State.Types.{CloudUser, CloudFile}
use a6_core.State.Disk.Calls.{Faults}
use a6_core.Cloud.Accounts.{Returned, returned, failed}
use a6_core.Cloud.Files.{Bytes, Cloud, FileDraw, FileFaults, has_file_id, save_file, open_file}
use a6_core.Cloud.Files.Roundtrip.{Uploaded, UploadEnds, save_file_lem}
use a6_core.Http.{Request}
use a6_core.Server.Cloud.{
  FileAnswer, content, created, failure, answer_opened, handle_get_file, Form, not_a_form, no_file,
  file, limited, answer_saved, save_form, handle_upload,
}

-- The file is stored, and its owner downloads exactly the bytes, with the type that was found.
abbrev pub Downloads : CloudUser → Bytes → FileAnswer × Cloud → Type 0
Downloads u bytes result =
    (rec : CloudFile) × (result.0 ≡ created rec)
    × ((r : Request)
        → r.path_id ≡ rec.id
        → handle_get_file false (some u) r result.1 ≡ (content rec.mime_type bytes, result.1))

abbrev pub FormEnds : CloudUser → Cloud → Form → FileAnswer × Cloud → Type 0
FormEnds u s not_a_form result = result ≡ (failure 400 "invalid_upload", s)
FormEnds u s no_file result = result ≡ (failure 400 "missing_file", s)
FormEnds u s (file filename bytes) result =
    Downloads u bytes result
    ⊎ ((result.0 ≡ failure 500 "save_failed") × (result.1.store.state ≡ s.store.state))

downloads :
    (u : CloudUser) (id : String) (bytes : Bytes) (s t : Cloud) (rec : CloudFile) (r : Request)
    → Uploaded u.id id bytes s t rec
    → r.path_id ≡ rec.id
    → handle_get_file false (some u) r t ≡ (content rec.mime_type bytes, t)
unfolding handle_get_file
downloads u id bytes s t rec r up e =
    ap (λ o. (answer_opened o, t)) (ap (λ i. open_file false u.id i t) (e ∙ up.has_id) ∙ up.reads)

answer_saved_lem :
    (u : CloudUser) (id filename : String) (bytes : Bytes) (s : Cloud)
    (a : Returned CloudFile × Cloud)
    → UploadEnds u.id id bytes s a
    → FormEnds u s (file filename bytes) (answer_saved a)
answer_saved_lem u id filename bytes s (returned rec, t) h =
    inl (rec, refl, λ r e. downloads u id bytes s t rec r h e)
answer_saved_lem u id filename bytes s (failed e, t) h = inr (refl, h.1)

module _ (extensions : String → Option String) (detect : Bytes → String) where
  save_form_lem :
      (draw : FileDraw) (ff : FileFaults) (faults : Faults) (u : CloudUser) (s : Cloud)
      (form : Form)
      → any (has_file_id draw.id) s.store.state.cloud_files ≡ false
      → FormEnds u s form (save_form extensions detect draw ff faults u.id s form)
  save_form_lem draw ff faults u s not_a_form fresh = refl
  save_form_lem draw ff faults u s no_file fresh = refl
  save_form_lem draw ff faults u s (file filename bytes) fresh =
      answer_saved_lem u draw.id filename bytes s
        (save_file extensions draw ff faults u.id filename (detect (take 512 bytes)) bytes s)
        (save_file_lem extensions draw u.id filename (detect (take 512 bytes)) bytes s fresh ff
          faults)

  -- An upload by a user, whose drawn id no file has, ends in one of four ways. A body that is no form or
  -- too long, and a form without a file, are answered 400 and change nothing. A file is stored, and a
  -- later request of the user for its id downloads exactly its bytes, with the type that is on record for it. Or it could
  -- not be stored, the answer is 500, and the state is as it was.
  pub handle_upload_lem :
      (draw : FileDraw) (ff : FileFaults) (faults : Faults) (size : ℕ) (form : Form) (u : CloudUser)
      (r : Request) (s : Cloud)
      → any (has_file_id draw.id) s.store.state.cloud_files ≡ false
      → FormEnds u s
          (limited size form)
          (handle_upload extensions detect draw ff faults size form (some u) r s)
  unfolding handle_upload
  handle_upload_lem draw ff faults size form u r s fresh =
      save_form_lem draw ff faults u s (limited size form) fresh
