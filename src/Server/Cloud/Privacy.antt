-- ===== src/Server/Cloud/Privacy.antt =====
-- What a client learns of the files of others.
use a6_core.Prelude.{
  String, Bool, none, some, ◌≡◌, ◌≢◌, refl, ap, ◌∙◌, ◌⊎◌, inl, inr, find, test_of_ne, cut_prefix,
}
use a6_core.State.Types.{CloudUser, CloudFile}
use a6_core.State.Disk.Calls.{Faults}
use a6_core.State.Store.{snapshot}
use a6_core.Cloud.Accounts.{Crypto, returned, validate_session}
use a6_core.Cloud.Files.{Cloud, has_file_id, open_file, delete_file}
use a6_core.Http.{Request}
use a6_core.Auth.CloudSession.{admits}
use a6_core.Server.Cloud.{
  failure, CloudHandler, write_cloud_file_error, handle_get_file, handle_delete_file, answer_opened,
  answer_deleted, require_cloud_session,
}

-- No file has the id, or the first one that has it belongs to somebody else.
abbrev pub IsNotTheirs : String → String → Cloud → Type 0
IsNotTheirs owner id s =
    (find (has_file_id id) s.store.state.cloud_files ≡ none)
    ⊎ ((f : CloudFile) × (find (has_file_id id) s.store.state.cloud_files ≡ some f)
        × (f.owner_id ≢ owner))

opens_nothing :
    (fault : Bool) (owner id : String) (s : Cloud)
    → IsNotTheirs owner id s
    → answer_opened (open_file fault owner id s) ≡ failure 404 "file_not_found"
unfolding open_file snapshot write_cloud_file_error
opens_nothing fault owner id s (inl h) = rw h refl
opens_nothing fault owner id s (inr (f, h, ne)) = rw h (rw (test_of_ne f.owner_id owner ne) refl)

deletes_nothing :
    (fault : Bool) (faults : Faults) (owner id : String) (s : Cloud)
    → IsNotTheirs owner id s
    → answer_deleted (delete_file fault faults owner id s) ≡ (failure 404 "file_not_found", s)
unfolding delete_file snapshot write_cloud_file_error
deletes_nothing fault faults owner id s (inl h) = rw h refl
deletes_nothing fault faults owner id s (inr (f, h, ne)) =
    rw h (rw (test_of_ne f.owner_id owner ne) refl)

with_session :
    (c : Crypto) (next : CloudHandler) (r : Request) (s : Cloud) (token : String) (u : CloudUser)
    → cut_prefix "Bearer " r.authorization ≡ some token
    → validate_session c token s.store ≡ returned u
    → require_cloud_session c next r s ≡ next (some u) r s
unfolding require_cloud_session
with_session c next r s token u h v =
    admits c (λ (s : Cloud). s.store) (failure 401) (λ u. next (some u) r s) r s token u h v

-- To a request whose token stands for a user, a file of somebody else is like no file at all: reading
-- and deleting are answered as for an id that no file has, and change nothing, whatever fails.
pub others_files_look_absent :
    (c : Crypto) (fault : Bool) (faults : Faults) (r : Request) (s : Cloud) (token : String)
    (u : CloudUser)
    → cut_prefix "Bearer " r.authorization ≡ some token
    → validate_session c token s.store ≡ returned u
    → IsNotTheirs u.id r.path_id s
    → (require_cloud_session c (handle_get_file fault) r s ≡ (failure 404 "file_not_found", s))
      × (require_cloud_session c (handle_delete_file fault faults) r s
          ≡ (failure 404 "file_not_found", s))
unfolding handle_get_file handle_delete_file
others_files_look_absent c fault faults r s token u h v n = (
  with_session c (handle_get_file fault) r s token u h v
      ∙ ap (λ a. (a, s)) (opens_nothing fault u.id r.path_id s n),
  with_session c (handle_delete_file fault faults) r s token u h v
      ∙ deletes_nothing fault faults u.id r.path_id s n,
)
