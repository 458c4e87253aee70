-- ===== src/State/Disk/Tests.antt =====
-- Tests of saving and loading, and the theorems about them at concrete disks.
use a6_core.Prelude.{◌≡◌, refl, true, false, [], All}
use mathlib.Core.List.{Memᴰ}
use a6_core.Samples.{empty_state, two_devices, disk_of, calm as no_faults}
use a6_core.State.Types.{fresh_state}
use a6_core.State.Migrate.{migrate}
use a6_core.State.Disk.Calls.{Disk, File, Faults, rename_target, garbage}
use a6_core.State.Disk.Save.{save_locked}
use a6_core.State.Disk.Load.{load}
use a6_core.State.Disk.Crash.{Restarts, save_crash_safe, loaded}
use a6_core.State.Disk.Recovery.{damaged, save_after_recovery_loses, calm}

abbrev no_rename : Faults
no_rename rename_target = true
no_rename _ = false

save_crash_safe_example :
    All
      (Restarts "id" no_faults empty_state two_devices)
      (save_locked two_devices no_rename
        (record { disk = disk_of empty_state; trail = [] })).1.trail
save_crash_safe_example =
    save_crash_safe empty_state two_devices no_rename no_faults "id" (disk_of empty_state) refl refl

abbrev junk : File
junk = record { contents = garbage; synced = true }

save_after_recovery_loses_example :
    (load "id" no_faults (damaged two_devices (disk_of empty_state))
      ≡ (migrate two_devices, damaged two_devices (disk_of empty_state)))
    × ((x : Disk) × Memᴰ x
          (save_locked empty_state calm
            (record { disk = damaged two_devices (disk_of empty_state); trail = [] })).1.trail
        × (loaded "id" no_faults x ≡ fresh_state "id"))
save_after_recovery_loses_example =
    save_after_recovery_loses "id" no_faults two_devices empty_state (disk_of empty_state) refl
