-- ===== src/State/Disk/Load.antt =====
-- internal/state/state.go: `readStateFile`, `load` and `quarantine`.
use a6_core.Prelude.{String, Option, none, some, List, ◌∷◌, Bool, if◌then◌else◌, true, false}
use a6_core.State.Types.{State, fresh_state}
use a6_core.State.Migrate.{migrate}
use a6_core.State.Disk.Calls.{
  json, garbage, File, Disk, Faults, rename_corrupt_primary, rename_corrupt_backup, read_primary,
  read_backup,
}

pub data Read : Type 0 where
  absent : Read
  unreadable : Read
  decoded : State → Read

-- `readStateFile`; a read that fails for another reason than that there is no file is not told from one
-- that cannot be parsed
unfoldable pub read_state_file : Bool → Option File → Read
read_state_file true _ = unreadable
read_state_file false none = absent
read_state_file false (some f) = elim f.contents [
  | json st ↦ decoded (migrate st)
  | garbage ↦ unreadable
]

-- `quarantine`: the file is renamed, unless there is none or the call fails
abbrev pub set_aside : Bool → Option File → List File → Option File × List File
set_aside fails none kept = (none, kept)
set_aside fails (some f) kept = if fails then (some f, kept) else (none, f ∷ kept)

unfoldable pub quarantine : Faults → Disk → Disk
quarantine faults d =
    let (primary, kept) = set_aside (faults rename_corrupt_primary) d.primary d.corrupt in
    let (backup, kept') = set_aside (faults rename_corrupt_backup) d.backup kept in
    record d { primary = primary; backup = backup; corrupt = kept' }

abbrev pub load_backup : String → Faults → Disk → Read → State × Disk
load_backup id faults d (decoded st) = (st, d)
load_backup id faults d _ = (fresh_state id, quarantine faults d)

abbrev pub load_primary : String → Faults → Disk → Read → State × Disk
load_primary id faults d (decoded st) = (st, d)
load_primary id faults d absent = (fresh_state id, d)
load_primary id faults d unreadable =
    load_backup id faults d (read_state_file (faults read_backup) d.backup)

-- `load`, as `Open` calls it; `id` is what `NewID` would draw for a fresh state
unfoldable pub load : String → Faults → Disk → State × Disk
unfolding read_state_file quarantine
load id faults d = load_primary id faults d (read_state_file (faults read_primary) d.primary)
