-- ===== src/Cloud/Files.antt =====
-- internal/cloud/cloud.go: the files of the users. A stored file is named by its owner, category and
-- stored name, below the base directory.
pub mod Ownership
pub mod Roundtrip
use a6_core.Prelude.{
  ℕ, String, Bool, true, false, not, Option, none, some, List, [], ◌∷◌, ◌++◌, ◌==◌, ◌&&◌, ◌||◌,
  length, find, keep_if, cut_prefix, if◌then◌else◌,
}
use a6_core.State.Types.{
  CloudFile, State, cloud_category_photo, cloud_category_video, cloud_category_other,
}
use a6_core.State.Disk.Calls.{Faults}
use a6_core.State.Store.{Store, Outcome, commit, Updated, done, refused, unsaved, update, snapshot}
use a6_core.Cloud.Accounts.{
  CloudError, file_not_found, not_owner, not_stored, not_opened, not_saved, Returned, returned,
  failed, outcome_of,
}
use a6_core.Cloud.FileNames.{sanitize_display_name, stored_name_for}

abbrev pub Bytes : Type 0
Bytes = List ℕ

abbrev pub Directory : Type 0
Directory = String → String → String → Option Bytes

-- the state, and what the files below the base directory hold
pub record Cloud : Type 0 where
  pub store : Store
  pub stored : Directory

-- what one call draws and reads off the clock
pub record FileDraw : Type 0 where
  pub stored_id : String
  pub id : String
  pub now : ℕ

-- which calls on files fail; `cut` is what was written when copying fails
pub record FileFaults : Type 0 where
  pub mkdir : Bool
  pub create : Bool
  pub cut : Option Bytes

abbrev has_prefix : Option String → Bool
has_prefix none = false
has_prefix (some rest) = true

-- `categoryForMIME`
unfoldable pub category_for_mime : String → String
category_for_mime mime =
    if has_prefix (cut_prefix "image/" mime)
    then cloud_category_photo
    else if has_prefix (cut_prefix "video/" mime)
    then cloud_category_video
    else cloud_category_other

abbrev is_path : String → String → String → String → String → String → Bool
is_path owner category name o c n = owner == o && category == c && name == n

abbrev pub write : String → String → String → Option Bytes → Directory → Directory
write owner category name content dir o c n =
    if is_path owner category name o c n then content else dir o c n

abbrev pub has_file_id : String → CloudFile → Bool
has_file_id id f = f.id == id

abbrev pub add_file : CloudFile → State → Outcome CloudError CloudFile
add_file rec st = commit rec (record st { cloud_files = st.cloud_files ++ rec ∷ [] })

abbrev pub with_store : Directory → Returned CloudFile × Store → Returned CloudFile × Cloud
with_store dir (r, t) = (r, record { store = t; stored = dir })

module _ (extensions : String → Option String) where
  abbrev pub new_file : FileDraw → String → String → String → Bytes → CloudFile
  new_file draw owner filename mime content = record {
    id = draw.id;
    owner_id = owner;
    category = category_for_mime mime;
    filename = sanitize_display_name filename;
    stored_name = stored_name_for extensions draw.stored_id mime filename;
    size_bytes = length content;
    mime_type = mime;
    uploaded_at = draw.now;
  }

  abbrev pub save_copied :
      FileDraw
      → Faults
      → String
      → String
      → String
      → Bytes
      → Cloud
      → Option Bytes
      → Returned CloudFile × Cloud
  save_copied draw faults owner filename mime content s (some part) =
      let f = new_file draw owner filename mime content in
      (
        failed not_stored,
        record s { stored = write owner f.category f.stored_name (some part) s.stored },
      )
  save_copied draw faults owner filename mime content s none =
      let f = new_file draw owner filename mime content in
      with_store (write owner f.category f.stored_name (some content) s.stored)
        (outcome_of (update (add_file f) faults s.store))

  -- `SaveFile`
  unfoldable pub save_file :
      FileDraw
      → FileFaults
      → Faults
      → String
      → String
      → String
      → Bytes
      → Cloud
      → Returned CloudFile × Cloud
  save_file draw ff faults owner filename mime content s =
      let copied = save_copied draw faults owner filename mime content s ff.cut in
      if ff.mkdir || ff.create then (failed not_stored, s) else copied

abbrev pub wanted : String → String → CloudFile → Bool
wanted owner category f = f.owner_id == owner && (category == "" || f.category == category)

-- `ListFiles`
unfoldable pub list_files : String → String → Cloud → List CloudFile
list_files owner category s = keep_if (wanted owner category) (snapshot s.store).cloud_files

abbrev pub opened : CloudFile → Bool → Option Bytes → Returned (CloudFile × Bytes)
opened rec true content = failed not_opened
opened rec false none = failed not_opened
opened rec false (some content) = returned (rec, content)

abbrev pub open_found : Bool → String → Cloud → Option CloudFile → Returned (CloudFile × Bytes)
open_found fault owner s none = failed file_not_found
open_found fault owner s (some rec) =
    if rec.owner_id == owner
    then opened rec fault (s.stored rec.owner_id rec.category rec.stored_name)
    else failed not_owner

-- `OpenFile`
unfoldable pub open_file : Bool → String → String → Cloud → Returned (CloudFile × Bytes)
unfolding snapshot
open_file fault owner id s =
    open_found fault owner s (find (has_file_id id) (snapshot s.store).cloud_files)

abbrev pub without_file : String → State → State
without_file id st = record st {
  cloud_files = keep_if (λ f. not (has_file_id id f)) st.cloud_files;
}

abbrev pub drop_file : String → State → Outcome CloudError Unit
drop_file id st = commit tt (without_file id st)

-- `_ = os.Remove(path)`
abbrev pub removed : Bool → CloudFile → Directory → Directory
removed true rec dir = dir
removed false rec dir = write rec.owner_id rec.category rec.stored_name none dir

abbrev pub forget :
    Bool → CloudFile → Cloud → Updated CloudError Unit × Store → Returned Unit × Cloud
forget fault rec s (done x, t) =
    (returned tt, record { store = t; stored = removed fault rec s.stored })
forget fault rec s (refused e, t) = (failed e, record s { store = t })
forget fault rec s (unsaved e, t) = (failed not_saved, record s { store = t })

abbrev pub delete_found :
    Bool → Faults → String → String → Cloud → Option CloudFile → Returned Unit × Cloud
delete_found fault faults owner id s none = (failed file_not_found, s)
delete_found fault faults owner id s (some rec) =
    if rec.owner_id == owner
    then forget fault rec s (update (drop_file id) faults s.store)
    else (failed not_owner, s)

-- `DeleteFile`
unfoldable pub delete_file : Bool → Faults → String → String → Cloud → Returned Unit × Cloud
unfolding snapshot
delete_file fault faults owner id s =
    delete_found fault faults owner id s (find (has_file_id id) (snapshot s.store).cloud_files)
