-- ===== src/Cloud/Tests.antt =====
-- Accounts and files at concrete inputs.
use a6_core.Prelude.{trim_space, String, false, Option, none, some, [], ◌∷◌, refl}
use a6_core.Samples.{crypto, empty_state, store_of, calm}
use a6_core.State.Types.{CloudUser, CloudFile}
use a6_core.State.Store.{Store}
use a6_core.Cloud.Accounts.{Draw, register}
use a6_core.Cloud.Accounts.{returned, IsLawful}
use a6_core.Prelude.{eq_refl, ◌≡◌, arith}
use a6_core.State.Store.{update}
use a6_core.State.Disk.Save.{
  save_locked, save_body, keep_backup, copy_file, copy_body, remove_temp, remove_backup_temp,
}
use a6_core.State.Disk.Calls.{perform, atomically, attempt}
use a6_core.Cloud.Files.{Cloud, FileDraw, FileFaults}

abbrev ada : CloudUser
ada = record { id = "u1"; username = "ada"; password_hash = "correct horse"; created_at = 1 }

abbrev note : CloudFile
note = record {
  id = "f1";
  owner_id = "u1";
  category = "other";
  filename = "note.txt";
  stored_name = "s1.txt";
  size_bytes = 2;
  mime_type = "text/plain";
  uploaded_at = 5;
}

abbrev with_ada : Store
with_ada = store_of (record empty_state {
  cloud_users = ada ∷ [];
  cloud_sessions = record { id = "x"; user_id = "u1"; token_hash = "t0"; created_at = 2 } ∷ [];
  cloud_files = note ∷ [];
})

abbrev draw : Draw
draw = record { id = "u2"; token = some "t1"; now = 9 }

crypto-IsLawful : IsLawful crypto
crypto-IsLawful = record {
  verifies-bcrypt = λ password h e. let same : password ≡ h = ground arith in rw same (eq_refl h);
  same_name_refl = λ name. eq_refl name;
}

abbrev bob : CloudUser
bob = record { id = "u2"; username = "bob"; password_hash = "long enough"; created_at = 9 }

registers_bob :
    register crypto draw calm " bob" "long enough" with_ada
    ≡ (returned bob, (register crypto draw calm " bob" "long enough" with_ada).1)
unfolding register trim_space update save_locked save_body keep_backup copy_file copy_body
    remove_temp remove_backup_temp perform atomically attempt
registers_bob = refl

abbrev hostile : String
hostile = "../../etc/passwd"

abbrev no_extensions : String → Option String
no_extensions mime = none

abbrev cloud : Cloud
cloud = record { store = with_ada; stored = λ o c n. some (1 ∷ 2 ∷ []) }

abbrev file_draw : FileDraw
file_draw = record { stored_id = "s2"; id = "f2"; now = 11 }

abbrev no_faults : FileFaults
no_faults = record { mkdir = false; create = false; cut = none }
