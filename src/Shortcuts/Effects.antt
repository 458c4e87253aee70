-- ===== src/Shortcuts/Effects.antt =====
-- How a change of a shortcut ends, on every branch.
use a6_core.Prelude.{
  String, Bool, Option, none, some, ◌≡◌, refl, sym, ap, subst, ◌∙◌, ◌⊎◌, inl, inr, find, arith,
}
use a6_core.State.Types.{Shortcut}
use a6_core.State.Disk.Calls.{Faults}
use a6_core.State.Disk.Crash.{saved}
use a6_core.State.Store.{Store, commit, Updated, done, refused, unsaved, update}
use a6_core.State.Store.Atomicity.{Transacts, update-Transacts}
use a6_core.Shortcuts.{
  ShortcutError, not_found, not_saved, Checked, fine, bad, has_id, UpdateInput, replace_first,
  checked_of, changed, stored_change, change_found, change, update_shortcut,
}

module _ (parse : String → Option (String × String)) (exists : String → Bool)
    (fetch : String → Option String) where
  -- why a change was turned away
  pub data NotChanged (id : String) (input : UpdateInput) (s : Store) : ShortcutError → Type 0 where
    unknown : find (has_id id) s.state.shortcuts ≡ none → NotChanged id input s not_found
    unfit :
        (old : Shortcut) (e : ShortcutError)
        → find (has_id id) s.state.shortcuts ≡ some old
        → changed parse exists fetch input old ≡ bad e
        → NotChanged id input s e
    change_not_saved : NotChanged id input s not_saved

  -- The first shortcut with the id has the new fields; it stands where it stood, the others are as
  -- they were, and so is the rest of the state.
  pub record Changed (id : String) (input : UpdateInput) (s t : Store) (new : Shortcut)
      : Type 0 where
    pub old : Shortcut
    pub found : find (has_id id) s.state.shortcuts ≡ some old
    pub fits : changed parse exists fetch input old ≡ fine new
    pub state : t.state ≡ record (s.state) { shortcuts = replace_first id new s.state.shortcuts }
    pub durable : t.disk.primary ≡ saved t.state

  abbrev pub ChangeEnds : String → UpdateInput → Store → Checked Shortcut × Store → Type 0
  ChangeEnds id input s (fine new, t) = Changed id input s t new
  ChangeEnds id input s (bad e, t) =
      NotChanged id input s e
      × (t.state ≡ s.state)
      × ((t.disk.primary ≡ s.disk.primary) ⊎ (t.disk.primary ≡ saved s.state))

  module _ (id : String) (input : UpdateInput) (s : Store) where
    change_unknown :
        (u : Updated ShortcutError (Option Shortcut) × Store)
        → find (has_id id) s.state.shortcuts ≡ none
        → Transacts s (commit none s.state) u
        → ChangeEnds id input s (checked_of u)
    change_unknown (done none, t) f h = (
      unknown f,
      ground arith,
      inr (let e : s.state ≡ t.state = ground arith in h.1 ∙ ap saved (sym e)),
    )
    change_unknown (done (some new), t) f h = absurd (cc (h.0))
    change_unknown (refused e, t) f h = absurd (cc (h.0))
    change_unknown (unsaved e, t) f h = (change_not_saved, h.0, inl h.1)

    change_known :
        (old : Shortcut) (c : Checked Shortcut)
        (u : Updated ShortcutError (Option Shortcut) × Store)
        → find (has_id id) s.state.shortcuts ≡ some old
        → changed parse exists fetch input old ≡ c
        → Transacts s (stored_change parse exists fetch id s.state c) u
        → ChangeEnds id input s (checked_of u)
    change_known old (bad e) (done a, t) f g h = absurd (cc (h.0))
    change_known old (bad e) (refused x, t) f g h =
        let same : e ≡ x = ground arith in
        subst (λ x. ChangeEnds id input s (bad x, t)) same
          (
            unfit old e f g,
            ap (λ (x : Store). x.state) h.1,
            inl (ap (λ (x : Store). x.disk.primary) h.1),
          )
    change_known old (fine new) (refused x, t) f g h = absurd (cc (h.0))
    change_known old (fine new) (done none, t) f g h = absurd (cc (h.0))
    change_known old (fine new) (done (some x), t) f g h =
        let same : new ≡ x = ground arith in
        subst (λ x. ChangeEnds id input s (fine x, t)) same
          (record { old = old; found = f; fits = g; state = ground arith; durable = h.1 })
    change_known old c (unsaved e, t) f g h = (change_not_saved, h.0, inl h.1)

    change_cases :
        (o : Option Shortcut) (u : Updated ShortcutError (Option Shortcut) × Store)
        → find (has_id id) s.state.shortcuts ≡ o
        → Transacts s (change_found parse exists fetch id input s.state o) u
        → ChangeEnds id input s (checked_of u)
    change_cases none u f h = change_unknown u f h
    change_cases (some old) u f h =
        change_known old (changed parse exists fetch input old) u f refl h

  -- A change ends in one of two ways. It puts the new fields, which passed every check, in the first
  -- shortcut with the id, in memory and in the state file, and changes nothing else. Or the state is as
  -- it was, and the state file holds what it held or that state: no shortcut has the id, a field was turned away, or
  -- the state could not be saved.
  pub update_shortcut_lem :
      (faults : Faults) (id : String) (input : UpdateInput) (s : Store)
      → ChangeEnds id input s (update_shortcut parse exists fetch faults id input s)
  unfolding update_shortcut
  update_shortcut_lem faults id input s =
      change_cases id input s (find (has_id id) s.state.shortcuts)
        (update (change parse exists fetch id input) faults s) refl
        (update-Transacts (change parse exists fetch id input) faults s)
