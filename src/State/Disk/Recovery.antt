-- ===== src/State/Disk/Recovery.antt =====
-- What `load` answers on any disk, what becomes of unreadable files, and where a recovery from the
-- backup is fragile.
use a6_core.Prelude.{
  String, ◌≡◌, refl, ◌⊎◌, inl, inr, Bool, true, false, Option, none, some, List, [], ap, ◌∙◌,
}
use mathlib.Core.List.{Memᴰ}
use a6_core.State.Types.{State, fresh_state}
use a6_core.State.Migrate.{migrate}
use a6_core.State.Migrate.Laws.{IsUsable, migrate-IsUsable}
use a6_core.State.Disk.Calls.{
  read_primary, read_backup, Contents, json, garbage, File, Disk, Faults, perform, atomically,
  attempt, rename_corrupt_primary, rename_corrupt_backup,
}
use a6_core.State.Disk.Save.{
  copy_body, copy_file, keep_backup, save_body, save_locked, remove_temp, remove_backup_temp,
}
use a6_core.State.Disk.Load.{
  Read, absent, unreadable, decoded, load, load_primary, load_backup, read_state_file, quarantine,
  set_aside,
}
use a6_core.State.Disk.Crash.{loaded}

fresh_state-IsUsable : (id : String) → IsUsable (fresh_state id)
unfolding fresh_state
fresh_state-IsUsable id = record { mode = refl; typed = tt; led = inl refl }

abbrev UsableRead : Read → Type 0
UsableRead (decoded st) = IsUsable st
UsableRead _ = Unit {0}

read_state_file-Usable : (fails : Bool) (o : Option File) → UsableRead (read_state_file fails o)
unfolding read_state_file
read_state_file-Usable true o = tt
read_state_file-Usable false none = tt
read_state_file-Usable false (some f) = go f.contents
  where
    go :
        (c : Contents)
        → UsableRead (elim c [ json st ↦ decoded (migrate st) | garbage ↦ unreadable ])
    go (json st) = migrate-IsUsable st
    go garbage = tt

load_backup-IsUsable :
    (id : String) (faults : Faults) (d : Disk) (r : Read)
    → UsableRead r
    → IsUsable (load_backup id faults d r).0
load_backup-IsUsable id faults d (decoded st) h = h
load_backup-IsUsable id faults d absent h = fresh_state-IsUsable id
load_backup-IsUsable id faults d unreadable h = fresh_state-IsUsable id

load_primary-IsUsable :
    (id : String) (faults : Faults) (d : Disk) (r : Read)
    → UsableRead r
    → IsUsable (load_primary id faults d r).0
load_primary-IsUsable id faults d (decoded st) h = h
load_primary-IsUsable id faults d absent h = fresh_state-IsUsable id
load_primary-IsUsable id faults d unreadable h =
    load_backup-IsUsable id faults d (read_state_file (faults read_backup) d.backup)
      (read_state_file-Usable (faults read_backup) d.backup)

-- Whatever is on the disk, and whatever calls fail, the program starts with a usable state: with
-- a mode, a type on each device, and a primary device unless there is no device.
pub load-IsUsable : (id : String) (faults : Faults) (d : Disk) → IsUsable (load id faults d).0
unfolding load
load-IsUsable id faults d =
    load_primary-IsUsable id faults d (read_state_file (faults read_primary) d.primary)
      (read_state_file-Usable (faults read_primary) d.primary)

-- A file is still on the disk, in its place or set aside.
abbrev pub IsKept : File → Disk → Type 0
IsKept f d = (d.primary ≡ some f) ⊎ ((d.backup ≡ some f) ⊎ Memᴰ f d.corrupt)

set_aside-kept :
    (f : File) (fails : Bool) (o : Option File) (kept : List File)
    → Memᴰ f kept
    → Memᴰ f (set_aside fails o kept).1
set_aside-kept f fails none kept h = h
set_aside-kept f true (some g) kept h = h
set_aside-kept f false (some g) kept h = Memᴰ.tail h

set_aside-file :
    (f : File) (fails : Bool) (o : Option File) (kept : List File)
    → o ≡ some f
    → ((set_aside fails o kept).0 ≡ some f) ⊎ Memᴰ f (set_aside fails o kept).1
set_aside-file f fails none kept h = absurd (cc)
set_aside-file f true (some g) kept h = inl h
set_aside-file f false (some g) kept h = inr (Memᴰ.head (cc))

quarantine-IsKept :
    (f : File) (faults : Faults) (d : Disk) → IsKept f d → IsKept f (quarantine faults d)
unfolding quarantine
quarantine-IsKept f faults d h =
    let p = faults rename_corrupt_primary in
    let b = faults rename_corrupt_backup in
    let kept = (set_aside p d.primary d.corrupt).1 in
    elim h [
      | inl e ↦ elim (set_aside-file f p d.primary d.corrupt e) [
        | inl e' ↦ inl e'
        | inr m ↦ inr (inr (set_aside-kept f b d.backup kept m))
      ]
      | inr (inl e) ↦ inr (set_aside-file f b d.backup kept e)
      | inr (inr m) ↦
          inr (inr (set_aside-kept f b d.backup kept (set_aside-kept f p d.primary d.corrupt m)))
    ]

load_backup-IsKept :
    (f : File) (id : String) (faults : Faults) (d : Disk) (r : Read)
    → IsKept f d
    → IsKept f (load_backup id faults d r).1
load_backup-IsKept f id faults d (decoded st) h = h
load_backup-IsKept f id faults d absent h = quarantine-IsKept f faults d h
load_backup-IsKept f id faults d unreadable h = quarantine-IsKept f faults d h

load_primary-IsKept :
    (f : File) (id : String) (faults : Faults) (d : Disk) (r : Read)
    → IsKept f d
    → IsKept f (load_primary id faults d r).1
load_primary-IsKept f id faults d (decoded st) h = h
load_primary-IsKept f id faults d absent h = h
load_primary-IsKept f id faults d unreadable h =
    load_backup-IsKept f id faults d (read_state_file (faults read_backup) d.backup) h

-- Loading destroys nothing: a state file, a backup or a file set aside earlier is still there
-- afterwards with its contents, in its place or set aside, whether it could be read or not.
pub load-IsKept :
    (f : File) (id : String) (faults : Faults) (d : Disk)
    → IsKept f d
    → IsKept f (load id faults d).1
unfolding load
load-IsKept f id faults d h =
    load_primary-IsKept f id faults d (read_state_file (faults read_primary) d.primary) h

-- a disk whose state file cannot be read and whose backup holds `st`
abbrev pub damaged : State → Disk → Disk
damaged st d = record d {
  primary = some (record { contents = garbage; synced = true });
  backup = some (record { contents = json st; synced = true });
}

read_saved :
    (st : State) {fails : Bool}
    → fails ≡ false
    → read_state_file fails (some (record { contents = json st; synced = true }))
      ≡ decoded (migrate st)
unfolding read_state_file
read_saved st fine = rw fine refl

read-unreadable :
    (fails : Bool)
    → read_state_file fails (some (record { contents = garbage; synced = true })) ≡ unreadable
unfolding read_state_file
read-unreadable true = refl
read-unreadable false = refl

load-damaged :
    (id : String) (faults : Faults) (st : State) (d : Disk)
    → faults read_backup ≡ false
    → load id faults (damaged st d) ≡ (migrate st, damaged st d)
unfolding load
load-damaged id faults st d fine =
    ap (load_primary id faults (damaged st d)) (read-unreadable (faults read_primary))
    ∙ ap (load_backup id faults (damaged st d)) (read_saved st fine)

abbrev pub calm : Faults
calm c = false

-- the disk when the unreadable state file has been copied over the backup
abbrev overwritten : State → Disk → Disk
overwritten new d = record d {
  primary = some (record { contents = garbage; synced = true });
  backup = some (record { contents = garbage; synced = true });
  temp = some (record { contents = json new; synced = true });
  backup_temp = none;
}

overwritten_in_trail :
    (st new : State) (d : Disk)
    → Memᴰ
        (overwritten new d)
        (save_locked new calm (record { disk = damaged st d; trail = [] })).1.trail
unfolding save_locked save_body keep_backup copy_file copy_body perform atomically attempt
    remove_temp remove_backup_temp
overwritten_in_trail st new d = Memᴰ.tail (Memᴰ.tail (Memᴰ.head refl))

load-overwritten :
    (id : String) (faults : Faults) (new : State) (d : Disk)
    → loaded id faults (overwritten new d) ≡ fresh_state id
unfolding load
load-overwritten id faults new d =
    ap (λ r. (load_primary id faults (overwritten new d) r).0)
      (read-unreadable (faults read_primary))
    ∙ ap (λ r. (load_backup id faults (overwritten new d) r).0)
        (read-unreadable (faults read_backup))

-- The first save after a start from the backup can lose everything. The disk had an unreadable
-- state file and a good backup, which can be read, and a load found the backup. The save copies the
-- unreadable file over the backup before it puts the new state in place, with no call failing, and if it
-- is cut off there then the next load starts from a fresh state.
pub save_after_recovery_loses :
    (id : String) (faults : Faults) (st new : State) (d : Disk)
    → faults read_backup ≡ false
    → (load id faults (damaged st d) ≡ (migrate st, damaged st d))
      × ((x : Disk) × Memᴰ x
            (save_locked new calm (record { disk = damaged st d; trail = [] })).1.trail
          × (loaded id faults x ≡ fresh_state id))
save_after_recovery_loses id faults st new d fine = (
  load-damaged id faults st d fine,
  (overwritten new d, overwritten_in_trail st new d, load-overwritten id faults new d),
)
