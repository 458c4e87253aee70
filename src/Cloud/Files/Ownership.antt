-- ===== src/Cloud/Files/Ownership.antt =====
-- A file is read and deleted only by its owner.
use a6_core.Prelude.{
  String, Bool, true, false, not, Option, none, some, ◌==◌, ◌≡◌, ◌≢◌, refl, sym, ap, ◌∙◌, ◌⊎◌, inl,
  inr, find, find-keep_if-not, find-keep_if, eq_of_test, ne_of_test, test_of_ne, Bool-cases, arith,
}
use a6_core.State.Types.{CloudFile, State}
use a6_core.State.Disk.Calls.{Faults}
use a6_core.State.Disk.Crash.{saved}
use a6_core.State.Store.{Store, Updated, done, refused, unsaved, update, snapshot}
use a6_core.State.Store.Atomicity.{Transacts, update-Transacts}
use a6_core.Cloud.Accounts.{
  CloudError, file_not_found, not_owner, not_opened, not_saved, Returned, returned, failed,
}
use a6_core.Cloud.Files.{
  Bytes, Cloud, has_file_id, opened, open_found, open_file, without_file, drop_file, forget,
  delete_found, delete_file,
}

-- why a file was not answered or deleted; `fails` is what may go wrong for its owner
pub data FileRefused (owner id : String) (s : Cloud) (fails : CloudError)
    : CloudError → Type 0 where
  unknown :
      find (has_file_id id) s.store.state.cloud_files ≡ none
      → FileRefused owner id s fails file_not_found
  foreign :
      (rec : CloudFile)
      → find (has_file_id id) s.store.state.cloud_files ≡ some rec
      → rec.owner_id ≢ owner
      → FileRefused owner id s fails not_owner
  broken :
      (rec : CloudFile)
      → find (has_file_id id) s.store.state.cloud_files ≡ some rec
      → rec.owner_id ≡ owner
      → FileRefused owner id s fails fails

-- The caller owns the first file with the id, and gets its record and what is stored for it.
pub record Opened (owner id : String) (s : Cloud) (answer : CloudFile × Bytes) : Type 0 where
  pub found : find (has_file_id id) s.store.state.cloud_files ≡ some answer.0
  pub owned : (answer.0).owner_id ≡ owner
  pub content :
      s.stored (answer.0).owner_id (answer.0).category (answer.0).stored_name ≡ some answer.1

abbrev pub OpenEnds : String → String → Cloud → Returned (CloudFile × Bytes) → Type 0
OpenEnds owner id s (returned a) = Opened owner id s a
OpenEnds owner id s (failed e) = FileRefused owner id s not_opened e

opened-Ends :
    (owner id : String) (s : Cloud) (rec : CloudFile) (fault : Bool) (o : Option Bytes)
    → find (has_file_id id) s.store.state.cloud_files ≡ some rec
    → rec.owner_id ≡ owner
    → s.stored rec.owner_id rec.category rec.stored_name ≡ o
    → OpenEnds owner id s (opened rec fault o)
opened-Ends owner id s rec true o f w c = broken rec f w
opened-Ends owner id s rec false none f w c = broken rec f w
opened-Ends owner id s rec false (some content) f w c = record { found = f; owned = w; content = c }

open_found-Ends :
    (fault : Bool) (owner id : String) (s : Cloud) (o : Option CloudFile)
    → find (has_file_id id) s.store.state.cloud_files ≡ o
    → OpenEnds owner id s (open_found fault owner s o)
open_found-Ends fault owner id s none f = unknown f
open_found-Ends fault owner id s (some rec) f = elim (Bool-cases (rec.owner_id == owner)) [
  | inl e ↦ rw e (
      opened-Ends owner id s rec fault (s.stored rec.owner_id rec.category rec.stored_name) f
        (eq_of_test rec.owner_id owner e) refl)
  | inr e ↦ rw e (foreign rec f (ne_of_test rec.owner_id owner e))
]

-- What `OpenFile` answers is the first file with the id, which the caller owns, with the bytes stored
-- for it. It fails for an id that no file has, for a file of somebody else, and, for its owner, only
-- when the stored bytes cannot be opened.
pub open_file_lem :
    (fault : Bool) (owner id : String) (s : Cloud)
    → OpenEnds owner id s (open_file fault owner id s)
unfolding open_file snapshot
open_file_lem fault owner id s =
    open_found-Ends fault owner id s (find (has_file_id id) s.store.state.cloud_files) refl

-- The file is gone, in memory and in the state file; every file with another id is found as before.
pub record Deleted (owner id : String) (s t : Cloud) : Type 0 where
  pub rec : CloudFile
  pub found : find (has_file_id id) s.store.state.cloud_files ≡ some rec
  pub owned : rec.owner_id ≡ owner
  pub gone : find (has_file_id id) t.store.state.cloud_files ≡ none
  pub others :
      (other : String)
      → (other ≡ id)
        ⊎ (find (has_file_id other) t.store.state.cloud_files
            ≡ find (has_file_id other) s.store.state.cloud_files)
  pub durable : t.store.disk.primary ≡ saved t.store.state

abbrev pub DeleteFileEnds : String → String → Cloud → Returned Unit × Cloud → Type 0
DeleteFileEnds owner id s (returned x, t) = Deleted owner id s t
DeleteFileEnds owner id s (failed e, t) =
    FileRefused owner id s not_saved e × (t.store.state ≡ s.store.state) × (t.stored ≡ s.stored)

other_file :
    (id other : String) (st : State)
    → (other ≡ id)
      ⊎ (find (has_file_id other) (without_file id st).cloud_files
          ≡ find (has_file_id other) st.cloud_files)
other_file id other st = elim (Bool-cases (other == id)) [
  | inl e ↦ inl (eq_of_test other id e)
  | inr ne ↦ inr (
      find-keep_if (has_file_id other) (λ f. not (has_file_id id f)) st.cloud_files
        (λ f h.
          ap not
            (test_of_ne f.id id (λ e. ne_of_test other id ne (sym (eq_of_test f.id other h) ∙ e)))))
]

forget-Ends :
    (fault : Bool) (owner id : String) (s : Cloud) (rec : CloudFile)
    (u : Updated CloudError Unit × Store)
    → find (has_file_id id) s.store.state.cloud_files ≡ some rec
    → rec.owner_id ≡ owner
    → Transacts s.store (drop_file id s.store.state) u
    → DeleteFileEnds owner id s (forget fault rec s u)
forget-Ends fault owner id s rec (done x, t) f w h =
    let e : t.state ≡ without_file id s.store.state = ground arith in
    record {
      rec = rec;
      found = f;
      owned = w;
      gone =
          ap (λ st. find (has_file_id id) st.cloud_files) e
          ∙ find-keep_if-not (has_file_id id) s.store.state.cloud_files;
      others = λ other. rw e (other_file id other s.store.state);
      durable = h.1;
    }
forget-Ends fault owner id s rec (refused e, t) f w h = absurd (cc (h.0))
forget-Ends fault owner id s rec (unsaved e, t) f w h = (broken rec f w, h.0, refl)

delete_found-Ends :
    (fault : Bool) (faults : Faults) (owner id : String) (s : Cloud) (o : Option CloudFile)
    → find (has_file_id id) s.store.state.cloud_files ≡ o
    → DeleteFileEnds owner id s (delete_found fault faults owner id s o)
delete_found-Ends fault faults owner id s none f = (unknown f, refl, refl)
delete_found-Ends fault faults owner id s (some rec) f = elim (Bool-cases (rec.owner_id == owner)) [
  | inl e ↦ rw e (
      forget-Ends fault owner id s rec (update (drop_file id) faults s.store) f
        (eq_of_test rec.owner_id owner e) (update-Transacts (drop_file id) faults s.store))
  | inr e ↦ rw e (foreign rec f (ne_of_test rec.owner_id owner e), refl, refl)
]

-- A deletion that reports success removed every file with the id, the first of which the caller owns,
-- in memory and in the state file, and left each file with another id as it was. One that fails, for
-- an unknown id, a file of somebody else, or when the state could not be saved, changed neither the
-- state nor any stored bytes.
pub delete_file_lem :
    (fault : Bool) (faults : Faults) (owner id : String) (s : Cloud)
    → DeleteFileEnds owner id s (delete_file fault faults owner id s)
unfolding delete_file snapshot
delete_file_lem fault faults owner id s =
    delete_found-Ends fault faults owner id s (find (has_file_id id) s.store.state.cloud_files) refl
