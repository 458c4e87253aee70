-- ===== src/State/Store/Atomicity.antt =====
-- `Update` is a transaction: it takes effect in memory and in the file together, or in neither.
use a6_core.Prelude.{String, ◌≡◌, refl, Option, none, some, sym, subst, ◌∙◌, ap, false}
use a6_core.State.Types.{State}
use a6_core.State.Migrate.Laws.{IsUsable, migrate_usable}
use a6_core.State.Disk.Calls.{read_primary, World, Faults}
use a6_core.State.Disk.Save.{SaveError, save_locked}
use a6_core.State.Disk.Crash.{saved, Ends, save_locked-Ends, loaded-saved}
use a6_core.State.Store.{
  Store, Outcome, commit, abort, Updated, done, refused, unsaved, start, open_store,
  saved_or_rolled_back, finish, update,
}

module _ {E A : Type 0} where
  -- How an update of `s` by a function with the given outcome ends.
  abbrev pub Transacts : Store → Outcome E A → Updated E A × Store → Type 0
  Transacts s o (done a, t) = (o ≡ commit a t.state) × (t.disk.primary ≡ saved t.state)
  Transacts s o (refused e, t) = (o ≡ abort e) × (t ≡ s)
  Transacts s o (unsaved e, t) = (t.state ≡ s.state) × (t.disk.primary ≡ s.disk.primary)

module _ (E : Type 0) {A : Type 0} where
  saved_or_rolled_back-Transacts :
      (a : A) (st : State) (s : Store) (r : Option SaveError × World)
      → Ends s.disk.primary st r
      → Transacts {E = E} s (commit a st) (saved_or_rolled_back a st s r.0 r.1.disk)
  saved_or_rolled_back-Transacts a st s (none, w) h = (refl, h.0)
  saved_or_rolled_back-Transacts a st s (some e, w) h = (refl, h.0)

module _ {E A : Type 0} where
  finish-Transacts :
      (faults : Faults) (s : Store) (o : Outcome E A) → Transacts s o (finish faults s o)
  finish-Transacts faults s (abort e) = (refl, refl)
  finish-Transacts faults s (commit a st) =
      saved_or_rolled_back-Transacts E a st s (save_locked st faults (start s.disk))
        (save_locked-Ends st faults s.disk)

  -- An update that reports success has put the function's state in memory and, complete, in the
  -- state file. One that the function refused changed nothing at all, and one that could not be
  -- saved left the state in memory and the state file as they were.
  pub update-Transacts :
      (fn : State → Outcome E A) (faults : Faults) (s : Store)
      → Transacts s (fn s.state) (update fn faults s)
  unfolding update
  update-Transacts fn faults s = finish-Transacts faults s (fn s.state)

  -- Saving what the function made of the state failed.
  abbrev pub SaveFails : (State → Outcome E A) → Faults → Store → Type 0
  SaveFails fn faults s = (e : SaveError) × ((update fn faults s).0 ≡ unsaved e)

  -- Where the function returns an error, so does the update, and changes nothing.
  pub update-abort :
      (fn : State → Outcome E A) (faults : Faults) (s : Store) (e : E)
      → fn s.state ≡ abort e
      → update fn faults s ≡ (refused e, s)
  unfolding update
  update-abort fn faults s e h = ap (finish faults s) h

  -- What an update's function keeps, the update keeps.
  module _ (P : State → Type 0) where
    keeps :
        (s : Store) (o : Outcome E A) (r : Updated E A × Store)
        → Transacts s o r
        → P s.state
        → ((a : A) (st : State) → o ≡ commit a st → P st)
        → P r.1.state
    keeps s o (done a, t) h p f = f a t.state h.0
    keeps s o (refused e, t) h p f = subst (λ (x : Store). P x.state) (sym h.1) p
    keeps s o (unsaved e, t) h p f = subst P (sym h.0) p

    pub update-keeps :
        (fn : State → Outcome E A) (faults : Faults) (s : Store)
        → P s.state
        → ((a : A) (st : State) → fn s.state ≡ commit a st → P st)
        → P (update fn faults s).1.state
    update-keeps fn faults s p f =
        keeps s (fn s.state) (update fn faults s) (update-Transacts fn faults s) p f

-- The state file holds the state in memory.
abbrev pub IsDurable : Store → Type 0
IsDurable s = s.disk.primary ≡ saved s.state

module _ {E A : Type 0} where
  durable :
      (s : Store) (o : Outcome E A) (r : Updated E A × Store)
      → Transacts s o r
      → IsDurable s
      → IsDurable r.1
  durable s o (done a, t) h d = h.1
  durable s o (refused e, t) h d = subst IsDurable (sym h.1) d
  durable s o (unsaved e, t) h d = h.1 ∙ (d ∙ ap saved (sym h.0))

  -- However an update ends, a state file that held the state in memory holds it afterwards, and a
  -- restart then that can read it, if that state is usable, comes back with exactly that state.
  pub update_then_restart :
      (fn : State → Outcome E A) (faults later : Faults) (id : String) (s : Store)
      → later read_primary ≡ false
      → IsDurable s
      → let t = (update fn faults s).1 in
        IsDurable t × (IsUsable t.state → (open_store id later t.disk).state ≡ t.state)
  unfolding open_store
  update_then_restart fn faults later id s fine d =
      let t = (update fn faults s).1 in
      let d' = durable s (fn s.state) (update fn faults s) (update-Transacts fn faults s) d in
      (d', λ u. (loaded-saved id later t.disk t.state fine d').0 ∙ migrate_usable t.state u)
