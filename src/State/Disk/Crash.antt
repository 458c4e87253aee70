-- ===== src/State/Disk/Crash.antt =====
-- A save is atomic: whatever fails, and wherever it is cut off, the state file holds the old
-- contents or the new ones.
use a6_core.Prelude.{
  String, ◌≡◌, refl, ◌⊎◌, inl, inr, true, Option, none, some, List, [], ◌∷◌, arith, All, Bool-cases,
  subst, false, Bool, ap, ◌∙◌,
}
use a6_core.State.Types.{State}
use a6_core.State.Migrate.{migrate}
use a6_core.State.Disk.Calls.{
  read_primary, json, File, Disk, World, Faults, visit, perform, atomically, attempt, power_loss,
  torn, rename_target, create_temp, check, pure, unsynced,
}
use a6_core.State.Disk.Save.{
  SaveError, remove_backup_temp, remove_temp, copy_body, copy_file, keep_backup, save_body,
  save_locked, renaming, renaming,
}
use a6_core.State.Disk.Load.{decoded, load, load_primary, read_state_file}

abbrev pub saved : State → Option File
saved st = some (record { contents = json st; synced = true })

-- The state file is as it was before the save, or holds the new state in full.
abbrev Survives : Option File → State → Disk → Type 0
Survives was new d = (d.primary ≡ was) ⊎ (d.primary ≡ saved new)

record Ready (was : Option File) (new : State) (t : Option File) (w : World) : Type 0 where
  primary : w.disk.primary ≡ was
  temp : w.disk.temp ≡ t
  trail : All (Survives was new) w.trail

module _ {was : Option File} {new : State} {t : Option File} where
  copy_body-Ready :
      (source : File) (faults : Faults) (w : World)
      → Ready was new t w
      → Ready was new t (copy_body source faults w).1
  unfolding copy_body perform atomically attempt
  copy_body-Ready source faults w r = ground arith

  copy_file-Ready :
      (source : Option File) (faults : Faults) (w : World)
      → Ready was new t w
      → Ready was new t (copy_file source faults w).1
  unfolding copy_file remove_backup_temp atomically attempt
  copy_file-Ready none faults w r = r
  copy_file-Ready (some source) faults w r =
      let created = visit (record (w.disk) { backup_temp = some torn }) w in
      ground (arith, copy_body-Ready source faults created)

  keep_backup-Ready :
      (source : Option File) (faults : Faults) (w : World)
      → Ready was new t w
      → Ready was new t (keep_backup source faults w).1
  unfolding keep_backup attempt
  keep_backup-Ready none faults w r = r
  keep_backup-Ready (some source) faults w r =
      ground (arith, copy_file-Ready (some source) faults w)

-- How a save ends: without an error the new state is in the file, with one the file is untouched.
abbrev pub Ends : Option File → State → Option SaveError × World → Type 0
Ends was new (none, w) = (w.disk.primary ≡ saved new) × All (Survives was new) w.trail
Ends was new (some e, w) = (w.disk.primary ≡ was) × All (Survives was new) w.trail

rename-Ends :
    (was : Option File) (new : State) (faults : Faults) (w : World)
    → Ready was new (saved new) w
    → Ends was new (
        check
          (atomically rename_target (λ d. record d { primary = d.temp; temp = none }))
          (some renaming)
          (pure none)
          faults
          w)
unfolding atomically
rename-Ends was new faults w r = elim (Bool-cases (faults rename_target)) [
  | inl e ↦ rw e (r.primary, r.trail)
  | inr e ↦ rw e (r.temp, (inr r.temp, r.trail))
]

-- the disk once the temporary file is written and synced
abbrev written : State → World → World
written st w =
    let d = w.disk in
    let w1 = visit (record d { temp = some torn }) w in
    let w2 = visit (record d { temp = some (unsynced (json st)) }) w1 in
    visit (record d { temp = saved st }) w2

save_body-Ends :
    (was : Option File) (new : State) (faults : Faults) (w : World)
    → w.disk.primary ≡ was
    → All (Survives was new) w.trail
    → Ends was new (save_body new faults w)
unfolding save_body perform atomically attempt
save_body-Ends was new faults w p t =
    let full = written new w in
    let kept = (keep_backup full.disk.primary faults full).1 in
    let ready : Ready was new (saved new) full = record {
      primary = p;
      temp = refl;
      trail = (inl p, (inl p, (inl p, t)));
    } in
    let last =
      rename-Ends was new faults kept (keep_backup-Ready full.disk.primary faults full ready) in
    ground (arith, last)

remove_temp-Ends :
    (was : Option File) (new : State) (e : Option SaveError) (faults : Faults) (w : World)
    → Ends was new (e, w)
    → Ends was new (e, (remove_temp faults w).1)
unfolding remove_temp
remove_temp-Ends was new none faults w h = (h.0, (inr h.0, h.1))
remove_temp-Ends was new (some e) faults w h = (h.0, (inl h.0, h.1))

-- However the calls fail, at every moment of a save the state file is the old one or is complete.
-- If the save returns no error the file holds the new state, and if it returns one the file is
-- as it was.
pub save_locked-Ends :
    (new : State) (faults : Faults) (d : Disk)
    → Ends d.primary new (save_locked new faults (record { disk = d; trail = [] }))
unfolding save_locked atomically
save_locked-Ends new faults d = elim (Bool-cases (faults create_temp)) [
  | inl e ↦ rw e (refl, tt)
  | inr e ↦ rw e (
      let w = visit (record d { temp = some torn }) (record { disk = d; trail = [] }) in
      let (err, w') = save_body new faults w in
      remove_temp-Ends d.primary new err faults w'
        (save_body-Ends d.primary new faults w refl (inl refl, tt)))
]

-- what `load` answers, apart from what it does to the disk
abbrev pub loaded : String → Faults → Disk → State
loaded id faults d = (load id faults d).0

read-saved :
    (fails : Bool) (o : Option File) (st : State)
    → fails ≡ false
    → o ≡ saved st
    → read_state_file fails o ≡ decoded (migrate st)
unfolding read_state_file
read-saved fails o st fine e = ap (λ f. read_state_file f o) fine ∙ ap (read_state_file false) e

pub loaded-saved :
    (id : String) (faults : Faults) (d : Disk) (st : State)
    → faults read_primary ≡ false
    → d.primary ≡ saved st
    → (loaded id faults d ≡ migrate st) × (loaded id faults (power_loss d) ≡ migrate st)
unfolding load power_loss
loaded-saved id faults d st fine e = (
  ap (λ r. (load_primary id faults d r).0) (read-saved (faults read_primary) d.primary st fine e),
  ap (λ r. (load_primary id faults (power_loss d) r).0)
      (read-saved (faults read_primary) (power_loss d).primary st fine
        (let p : (power_loss d).primary ≡ saved st = rw e refl in p)),
)

-- A restart from `d`, with or without a loss of power before it, finds one of the two states.
abbrev pub Restarts : String → Faults → State → State → Disk → Type 0
Restarts id faults old new d =
    ((loaded id faults d ≡ migrate old) × (loaded id faults (power_loss d) ≡ migrate old))
    ⊎ ((loaded id faults d ≡ migrate new) × (loaded id faults (power_loss d) ≡ migrate new))

Restarts-of_Survives :
    (id : String) (faults : Faults) (old new : State)
    → faults read_primary ≡ false
    → (d : Disk) → Survives (saved old) new d
    → Restarts id faults old new d
Restarts-of_Survives id faults old new fine d (inl e) = inl (loaded-saved id faults d old fine e)
Restarts-of_Survives id faults old new fine d (inr e) = inr (loaded-saved id faults d new fine e)

All-map : {P Q : Disk → Type 0} → ((d : Disk) → P d → Q d) → (ds : List Disk) → All P ds → All Q ds
All-map f [] h = tt
All-map f (d ∷ ds) h = (f d h.0, All-map f ds h.1)

trail_of_Ends :
    (was : Option File) (new : State) (r : Option SaveError × World)
    → Ends was new r
    → All (Survives was new) r.1.trail
trail_of_Ends was new (none, w) h = h.1
trail_of_Ends was new (some e, w) h = h.1

-- With a good state file on the disk, a crash or a loss of power at any moment of a save, whatever
-- calls fail, is followed by a start with the old state or with the new one, if that start can read the
-- state file.
pub save_crash_safe :
    (old new : State) (faults later : Faults) (id : String) (d : Disk)
    → later read_primary ≡ false
    → d.primary ≡ saved old
    → All
        (Restarts id later old new)
        (save_locked new faults (record { disk = d; trail = [] })).1.trail
save_crash_safe old new faults later id d fine e =
    let r = save_locked new faults (record { disk = d; trail = [] }) in
    All-map (Restarts-of_Survives id later old new fine) r.1.trail (
      subst (λ was. All (Survives was new) r.1.trail) e
        (trail_of_Ends d.primary new r (save_locked-Ends new faults d)))
