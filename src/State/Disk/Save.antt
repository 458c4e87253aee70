-- ===== src/State/Disk/Save.antt =====
-- internal/state/state.go: `saveLocked` and `copyFileAtomic`. The error of each call is kept; the
-- texts around it are not. Deferred calls of `os.Remove` stand behind the body.
use a6_core.Prelude.{Bool, false, Option, none, some}
use a6_core.State.Types.{State}
use a6_core.State.Disk.Calls.{
  File, json, Action, pure, ◌>>=◌, ◌>>◌, check, visit, perform, atomically, attempt, torn, unsynced,
  sync, create_temp, write_temp, sync_temp, close_temp, rename_target, stat_target, read_target,
  create_backup, write_backup, sync_backup, close_backup, rename_backup,
}

pub data SaveError : Type 0 where
  creating writing fsyncing closing renaming : SaveError

-- `defer os.Remove(tmpPath)`
unfoldable pub remove_backup_temp : Action Unit
remove_backup_temp faults w = (tt, visit (record (w.disk) { backup_temp = none }) w)

unfoldable pub remove_temp : Action Unit
remove_temp faults w = (tt, visit (record (w.disk) { temp = none }) w)

-- `copyFileAtomic(target, backup)` behind the creation of its temporary file; true: no error
unfoldable pub copy_body : File → Action Bool
copy_body source =
    check
      (perform write_backup (λ d. record d { backup_temp = some torn })
        (λ d. record d { backup_temp = some (unsynced source.contents) }))
      false
      (check (atomically sync_backup (λ d. record d { backup_temp = sync d.backup_temp })) false (
        check (attempt close_backup) false (
          atomically rename_backup (λ d. record d { backup = d.backup_temp; backup_temp = none }))))

unfoldable pub copy_file : Option File → Action Bool
copy_file none = pure false
copy_file (some source) = check (attempt read_target) false (
    check (atomically create_backup (λ d. record d { backup_temp = some torn })) false
      (do done ← copy_body source; remove_backup_temp; pure done))

-- `if _, err := os.Stat(target); err == nil { copyFileAtomic … }`; a failed copy is only logged
unfoldable pub keep_backup : Option File → Action Unit
keep_backup none = pure tt
keep_backup (some source) =
    check (attempt stat_target) tt (do copied ← copy_file (some source); pure tt)

-- `saveLocked` behind the creation of its temporary file
unfoldable pub save_body : State → Action (Option SaveError)
save_body st =
    check
      (perform write_temp (λ d. record d { temp = some torn })
        (λ d. record d { temp = some (unsynced (json st)) }))
      (some writing)
      (check (atomically sync_temp (λ d. record d { temp = sync d.temp })) (some fsyncing) (
        check (attempt close_temp) (some closing) (do
          (λ faults w. keep_backup w.disk.primary faults w)
          check (atomically rename_target (λ d. record d { primary = d.temp; temp = none }))
              (some renaming) (pure none))))

-- `saveLocked`; `json.MarshalIndent` does not fail on a `State`
unfoldable pub save_locked : State → Action (Option SaveError)
save_locked st =
    check (atomically create_temp (λ d. record d { temp = some torn })) (some creating)
      (do err ← save_body st; remove_temp; pure err)
