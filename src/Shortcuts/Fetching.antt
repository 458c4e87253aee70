-- ===== src/Shortcuts/Fetching.antt =====
-- When a change of a shortcut goes to the network.
use a6_core.Prelude.{
  String, Bool, true, false, Option, none, some, ◌≡◌, refl, ap, ◌⊎◌, inl, inr, find,
}
use a6_core.State.Types.{Shortcut, State}
use a6_core.State.Disk.Calls.{Faults}
use a6_core.State.Store.{Store, Outcome, update}
use a6_core.Shortcuts.{
  ShortcutError, Checked, fine, bad, and_then, has_id, UpdateInput, checked_of, change_icon,
  change_name, change_url, changed, stored_change, change_found, update_shortcut,
}

module _ (parse : String → Option (String × String)) (exists : String → Bool)
    (fetch other : String → Option String) where
  change_icon_same :
      (icon : Option String) (refresh : Bool) (sc : Shortcut)
      → ((i : String) × (icon ≡ some i)) ⊎ (refresh ≡ false)
      → change_icon exists fetch icon refresh sc ≡ change_icon exists other icon refresh sc
  change_icon_same (some i) refresh sc h = refl
  change_icon_same none false sc h = refl
  change_icon_same none true sc (inl h) = absurd (cc (h.1))
  change_icon_same none true sc (inr h) = absurd (cc h)

  changed_same :
      (input : UpdateInput) (sc : Shortcut)
      → ((i : String) × (input.icon_id ≡ some i)) ⊎ (input.refresh_icon ≡ false)
      → changed parse exists fetch input sc ≡ changed parse exists other input sc
  unfolding changed
  changed_same input sc h =
      ap
        (λ (k : Shortcut → Checked Shortcut).
          and_then (change_name input.name sc) (λ x. and_then (change_url parse input.url x) k))
        (λ i x. change_icon_same input.icon_id input.refresh_icon x h i)

  change_found_same :
      (id : String) (input : UpdateInput) (st : State) (o : Option Shortcut)
      → ((i : String) × (input.icon_id ≡ some i)) ⊎ (input.refresh_icon ≡ false)
      → change_found parse exists fetch id input st o
        ≡ change_found parse exists other id input st o
  change_found_same id input st none h = refl
  change_found_same id input st (some sc) h =
      ap
        (λ (c : Checked Shortcut). elim c [
          | bad e ↦ stored_change parse exists fetch id st (bad e)
          | fine x ↦ stored_change parse exists fetch id st (fine x)
        ])
        (changed_same input sc h)

  -- A change that names an icon, or the empty one, or does not ask for a refresh, ends the same
  -- whatever the network would answer: a plain rename never depends on a fetch.
  pub update_shortcut_same :
      (faults : Faults) (id : String) (input : UpdateInput) (s : Store)
      → ((i : String) × (input.icon_id ≡ some i)) ⊎ (input.refresh_icon ≡ false)
      → update_shortcut parse exists fetch faults id input s
        ≡ update_shortcut parse exists other faults id input s
  unfolding update_shortcut
  update_shortcut_same faults id input s h =
      ap (λ (fn : State → Outcome ShortcutError (Option Shortcut)). checked_of (update fn faults s))
        (λ i st. change_found_same id input st (find (has_id id) st.shortcuts) h i)
