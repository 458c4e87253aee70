-- ===== src/Cloud/Files/Roundtrip.antt =====
-- What is uploaded can be read back by its owner.
use a6_core.Prelude.{
  String, false, Option, none, some, ◌∷◌, [], ◌++◌, ◌≡◌, refl, ap, subst, ◌∙◌, ◌⊎◌, inl, inr, find,
  any, find-append, find-any, eq_refl, Bool-cases, arith, length, ◌||◌,
}
use a6_core.State.Types.{CloudFile}
use a6_core.State.Disk.Calls.{Faults}
use a6_core.State.Disk.Crash.{saved}
use a6_core.State.Store.{Store, Updated, done, refused, unsaved, update, snapshot}
use a6_core.State.Store.Atomicity.{Transacts, update-Transacts}
use a6_core.Cloud.Accounts.{
  CloudError, not_stored, not_saved, Returned, returned, failed, outcome_of,
}
use a6_core.Cloud.Files.{
  Bytes, Directory, Cloud, FileDraw, FileFaults, write, has_file_id, add_file, with_store, new_file,
  save_copied, save_file, open_found, open_file,
}

-- The upload is on record for its owner, and reading it back answers what was uploaded.
pub record Uploaded (owner id : String) (content : Bytes) (s t : Cloud) (rec : CloudFile)
    : Type 0 where
  pub has_id : rec.id ≡ id
  pub owned : rec.owner_id ≡ owner
  pub sized : rec.size_bytes ≡ length content
  pub reads : open_file false owner id t ≡ returned (rec, content)
  pub durable : t.store.disk.primary ≡ saved t.store.state

abbrev pub UploadEnds : String → String → Bytes → Cloud → Returned CloudFile × Cloud → Type 0
UploadEnds owner id content s (returned rec, t) = Uploaded owner id content s t rec
UploadEnds owner id content s (failed e, t) =
    ((e ≡ not_stored) ⊎ (e ≡ not_saved)) × (t.store.state ≡ s.store.state)

module _ (extensions : String → Option String) (draw : FileDraw) (owner filename mime : String)
    (content : Bytes) (s : Cloud)
    (fresh : any (has_file_id draw.id) s.store.state.cloud_files ≡ false) where
  upload : CloudFile
  upload = new_file extensions draw owner filename mime content

  after : Directory
  after = write owner upload.category upload.stored_name (some content) s.stored

  finds_upload :
      (t : Store)
      → t.state ≡ record (s.store.state) { cloud_files = s.store.state.cloud_files ++ upload ∷ [] }
      → find (has_file_id draw.id) t.state.cloud_files ≡ some upload
  unfolding upload
  finds_upload t e =
      ap (λ st. find (has_file_id draw.id) st.cloud_files) e
      ∙ find-append (has_file_id draw.id) s.store.state.cloud_files (upload ∷ [])
      ∙ rw (find-any (has_file_id draw.id) s.store.state.cloud_files fresh)
          (rw (eq_refl draw.id) refl)

  opens_upload :
      (t : Store)
      → open_found false owner (record { store = t; stored = after }) (some upload)
        ≡ returned (upload, content)
  unfolding after upload
  opens_upload t =
      rw (eq_refl owner) (rw (eq_refl upload.category) (rw (eq_refl upload.stored_name) refl))

  reads_back :
      (t : Store)
      → t.state ≡ record (s.store.state) { cloud_files = s.store.state.cloud_files ++ upload ∷ [] }
      → open_file false owner draw.id (record { store = t; stored = after })
        ≡ returned (upload, content)
  unfolding open_file snapshot
  reads_back t e =
      ap (open_found false owner (record { store = t; stored = after })) (finds_upload t e)
      ∙ opens_upload t

  saved-Ends :
      (u : Updated CloudError CloudFile × Store)
      → Transacts s.store (add_file upload s.store.state) u
      → UploadEnds owner draw.id content s (with_store after (outcome_of u))
  unfolding upload
  saved-Ends (done rec, t) h =
      let same : upload ≡ rec = ground arith in
      subst (λ rec. Uploaded owner draw.id content s (record { store = t; stored = after }) rec)
        same
        (record {
          has_id = refl;
          owned = refl;
          sized = refl;
          reads = reads_back t (ground arith);
          durable = h.1;
        })
  saved-Ends (refused e, t) h = absurd (cc (h.0))
  saved-Ends (unsaved e, t) h = (inr refl, h.0)

  copied-Ends :
      (faults : Faults) (cut : Option Bytes)
      → UploadEnds owner draw.id content s
          (save_copied extensions draw faults owner filename mime content s cut)
  unfolding upload after
  copied-Ends faults (some part) = (inl refl, refl)
  copied-Ends faults none =
      saved-Ends (update (add_file upload) faults s.store)
        (update-Transacts (add_file upload) faults s.store)

  -- An upload whose drawn id no file has ends in one of two ways. It is on record in the state file
  -- for its owner with the number of its bytes, and reading it back under its id answers exactly the
  -- record and the bytes that were uploaded. Or it fails, when the bytes or the state could not be
  -- saved, and the state is as it was.
  pub save_file_lem :
      (ff : FileFaults) (faults : Faults)
      → UploadEnds owner draw.id content s
          (save_file extensions draw ff faults owner filename mime content s)
  unfolding save_file
  save_file_lem ff faults = elim (Bool-cases (ff.mkdir || ff.create)) [
    | inl e ↦ rw e (inl refl, refl)
    | inr e ↦ rw e (copied-Ends faults ff.cut)
  ]
