-- ===== src/State/Disk/Calls.antt =====
-- The state directory, and the system calls of internal/state/state.go as actions on it.
use a6_core.Prelude.{Bool, true, false, not, Option, none, some, List, ◌∷◌, if◌then◌else◌}
use a6_core.State.Types.{State}

-- what `json.Unmarshal` makes of a file's bytes
pub data Contents : Type 0 where
  json : State → Contents
  garbage : Contents

-- `synced`: whether the contents would survive a loss of power
pub record File : Type 0 where
  pub contents : Contents
  pub synced : Bool

-- `state.json`, `state.json.bak`, the temporary files of `saveLocked` and `copyFileAtomic`, and
-- the files that `quarantine` renamed
pub record Disk : Type 0 where
  pub primary : Option File
  pub backup : Option File
  pub temp : Option File
  pub backup_temp : Option File
  pub corrupt : List File

pub data Call : Type 0 where
  create_temp write_temp sync_temp close_temp rename_target : Call
  stat_target read_target : Call
  create_backup write_backup sync_backup close_backup rename_backup : Call
  rename_corrupt_primary rename_corrupt_backup read_primary read_backup : Call

-- which calls fail
abbrev pub Faults : Type 0
Faults = Call → Bool

-- `trail` holds the disk after every effect so far, the last one first
pub record World : Type 0 where
  pub disk : Disk
  pub trail : List Disk

abbrev pub Action : Type 0 → Type 0
Action A = Faults → World → A × World

abbrev pub pure : {A : Type 0} → A → Action A
pure a faults w = (a, w)

infixl 5 ◌>>=◌ ◌>>◌
abbrev pub ◌>>=◌ : {A B : Type 0} → Action A → (A → Action B) → Action B
◌>>=◌ m f faults w = let (a, w') = m faults w in f a faults w'

abbrev pub ◌>>◌ : {A B : Type 0} → Action A → Action B → Action B
m >> k = m >>= λ _. k

-- `if err := call; err != nil { return failed }; rest`
abbrev pub check : {A : Type 0} → Action Bool → A → Action A → Action A
check m failed rest faults w =
    let (ok, w') = m faults w in if ok then rest faults w' else (failed, w')

abbrev pub visit : Disk → World → World
visit d w = record { disk = d; trail = d ∷ w.trail }

-- A call that has the effect `half` when it is interrupted or fails, and `whole` when it ends well.
unfoldable pub perform : Call → (Disk → Disk) → (Disk → Disk) → Action Bool
perform c half whole faults w =
    let started = visit (half w.disk) w in
    if faults c then (false, started) else (true, visit (whole w.disk) started)

-- an effect that is all or nothing
unfoldable pub atomically : Call → (Disk → Disk) → Action Bool
atomically c whole faults w = if faults c then (false, w) else (true, visit (whole w.disk) w)

-- a call that only reads
unfoldable pub attempt : Call → Action Bool
attempt c faults w = (not (faults c), w)

abbrev pub torn : File
torn = record { contents = garbage; synced = false }

abbrev pub unsynced : Contents → File
unsynced c = record { contents = c; synced = false }

abbrev pub sync : Option File → Option File
sync none = none
sync (some f) = some (record f { synced = true })

-- What a loss of power leaves of a file: nothing is promised of contents that were not synced.
abbrev after_power_loss : Option File → Option File
after_power_loss none = none
after_power_loss (some f) = if f.synced then some f else some torn

unfoldable pub power_loss : Disk → Disk
power_loss d = record d {
  primary = after_power_loss d.primary;
  backup = after_power_loss d.backup;
  temp = after_power_loss d.temp;
  backup_temp = after_power_loss d.backup_temp;
}
