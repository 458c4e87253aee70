-- ===== src/Shortcuts/Invariant.antt =====
-- Every stored shortcut has a name and the address of a web page.
use a6_core.Prelude.{
  inl, inr, String, Bool, Option, none, some, List, [], ◌∷◌, ◌++◌, ◌≡◌, refl, sym, ap, subst, ◌∙◌,
  find, All, All-append, Bool-cases, arith, if◌then◌else◌,
}
use a6_core.State.Types.{Shortcut, State}
use a6_core.State.Disk.Calls.{Faults}
use a6_core.State.Store.{Store, Outcome, commit, Updated, done, refused, unsaved, update}
use a6_core.State.Store.Atomicity.{update-keeps}
use a6_core.Shortcuts.{
  ShortcutError, Checked, fine, bad, has_id, UpdateInput, replace_first, remove_first, checked_of,
  append_shortcut, new_shortcut, create_checked, create, changed, stored_change, change_found,
  change, update_shortcut, drop_found, drop, delete,
}
use a6_core.Shortcuts.Validity.{IsValid, changed-IsValid, new_shortcut-IsValid}

some_inj : (a b : Shortcut) → some a ≡ some b → a ≡ b
some_inj a b h = ap (λ o. elim o [ some x ↦ x | none ↦ a ]) h

module _ (P : Shortcut → Type 0) where
  replace_first-All :
      (id : String) (new : Shortcut) (scs : List Shortcut)
      → P new
      → All P scs
      → All P (replace_first id new scs)
  replace_first-All id new [] p h = tt
  replace_first-All id new (sc ∷ scs) p h = elim (Bool-cases (has_id id sc)) [
    | inl e ↦ rw e (p, h.1)
    | inr e ↦ rw e (h.0, replace_first-All id new scs p h.1)
  ]

  remove_first-All : (id : String) (scs : List Shortcut) → All P scs → All P (remove_first id scs)
  remove_first-All id [] h = tt
  remove_first-All id (sc ∷ scs) h = elim (Bool-cases (has_id id sc)) [
    | inl e ↦ rw e h.1
    | inr e ↦ rw e (h.0, remove_first-All id scs h.1)
  ]

  find-All :
      (p : Shortcut → Bool) (scs : List Shortcut) (sc : Shortcut)
      → find p scs ≡ some sc
      → All P scs
      → P sc
  find-All p [] sc f h = absurd (cc f)
  find-All p (x ∷ scs) sc f h = elim (Bool-cases (p x)) [
    | inl e ↦ subst P (some_inj x sc (sym (ap (λ b. if b then some x else find p scs) e) ∙ f)) h.0
    | inr e ↦ find-All p scs sc (sym (ap (λ b. if b then some x else find p scs) e) ∙ f) h.1
  ]

checked_of_state :
    {A : Type 0} (u : Updated ShortcutError (Option A) × Store) → (checked_of u).1 ≡ u.1
checked_of_state (done (some a), t) = refl
checked_of_state (done none, t) = refl
checked_of_state (refused e, t) = refl
checked_of_state (unsaved e, t) = refl

-- Every stored shortcut is valid.
abbrev pub AllValid : (String → Option (String × String)) → State → Type 0
AllValid parse st = All (IsValid parse) st.shortcuts

module _ (parse : String → Option (String × String)) (exists : String → Bool)
    (fetch : String → Option String) where
  kept_by :
      {A : Type 0} (fn : State → Outcome ShortcutError (Option A)) (faults : Faults) (s : Store)
      → AllValid parse s.state
      → ((a : Option A) (st : State) → fn s.state ≡ commit a st → AllValid parse st)
      → AllValid parse (checked_of (update fn faults s)).1.state
  kept_by fn faults s v f =
      subst (λ (t : Store). AllValid parse t.state) (sym (checked_of_state (update fn faults s)))
        (update-keeps (AllValid parse) fn faults s v f)

  committed :
      {A : Type 0} (a b : Option A) (st st' : State)
      → (let o : Outcome ShortcutError (Option A) = commit a st in o ≡ commit b st')
      → AllValid parse st
      → AllValid parse st'
  committed a b st st' h v = let e : st ≡ st' = ground arith in subst (AllValid parse) e v

  create_checked-AllValid :
      (faults : Faults) (s : Store) (c : Checked Shortcut)
      → ((new : Shortcut) → c ≡ fine new → IsValid parse new)
      → AllValid parse s.state
      → AllValid parse (create_checked parse exists fetch faults s c).1.state
  create_checked-AllValid faults s (bad e) f v = v
  create_checked-AllValid faults s (fine sc) f v =
      kept_by (append_shortcut parse exists fetch sc) faults s v (λ a st h.
        committed (some sc) a (record (s.state) { shortcuts = s.state.shortcuts ++ sc ∷ [] }) st h
          (All-append (IsValid parse) s.state.shortcuts (sc ∷ []) v (f sc refl, tt)))

  stored_change-AllValid :
      (id : String) (st : State) (c : Checked Shortcut) (a : Option Shortcut) (st' : State)
      → ((new : Shortcut) → c ≡ fine new → IsValid parse new)
      → stored_change parse exists fetch id st c ≡ commit a st'
      → AllValid parse st
      → AllValid parse st'
  stored_change-AllValid id st (bad e) a st' f h v = absurd (cc h)
  stored_change-AllValid id st (fine new) a st' f h v =
      committed (some new) a (record st { shortcuts = replace_first id new st.shortcuts }) st' h
        (replace_first-All (IsValid parse) id new st.shortcuts (f new refl) v)

  change_found-AllValid :
      (id : String) (input : UpdateInput) (st : State) (o : Option Shortcut) (a : Option Shortcut)
      (st' : State)
      → find (has_id id) st.shortcuts ≡ o
      → change_found parse exists fetch id input st o ≡ commit a st'
      → AllValid parse st
      → AllValid parse st'
  change_found-AllValid id input st none a st' f h v = committed none a st st' h v
  change_found-AllValid id input st (some old) a st' f h v =
      stored_change-AllValid id st (changed parse exists fetch input old) a st'
        (λ new e.
          changed-IsValid parse exists fetch input old new e
            (find-All (IsValid parse) (has_id id) st.shortcuts old f v))
        h v

  drop_found-AllValid :
      (id : String) (st : State) (o : Option Shortcut) (a : Option Unit) (st' : State)
      → drop_found id st o ≡ commit a st'
      → AllValid parse st
      → AllValid parse st'
  drop_found-AllValid id st none a st' h v = committed none a st st' h v
  drop_found-AllValid id st (some sc) a st' h v =
      committed (some tt) a (record st { shortcuts = remove_first id st.shortcuts }) st' h
        (remove_first-All (IsValid parse) id st.shortcuts v)

  -- Whatever is created, changed or deleted, and whichever calls fail, every shortcut in memory has a
  -- name that is not empty and an absolute http or https address, if every one had before.
  pub shortcuts-AllValid :
      (faults : Faults) (new_id name url icon id : String) (input : UpdateInput) (s : Store)
      → AllValid parse s.state
      → AllValid parse (create parse exists fetch faults new_id name url icon s).1.state
        × AllValid parse (update_shortcut parse exists fetch faults id input s).1.state
        × AllValid parse (delete faults id s).1.state
  unfolding create update_shortcut delete
  shortcuts-AllValid faults new_id name url icon id input s v = (
    create_checked-AllValid faults s (new_shortcut parse exists fetch new_id name url icon)
        (new_shortcut-IsValid parse exists fetch new_id name url icon) v,
    kept_by (change parse exists fetch id input) faults s v (λ a st h.
        change_found-AllValid id input s.state (find (has_id id) s.state.shortcuts) a st refl h v),
    kept_by (drop id) faults s v
        (λ a st h. drop_found-AllValid id s.state (find (has_id id) s.state.shortcuts) a st h v),
  )
