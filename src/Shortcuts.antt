-- ===== src/Shortcuts.antt =====
-- internal/shortcuts/shortcuts.go. What it uses of other packages is a parameter: `parse` is
-- `url.Parse` with the scheme and the host of its answer, `exists` is `Exists` of the icon store, and
-- `fetch` its `FetchFavicon`, which goes to the network.
pub mod Validity
pub mod Invariant
pub mod Effects
pub mod Fetching
mod Tests
use a6_core.Prelude.{
  String, Bool, true, false, not, Option, none, some, List, [], ◌∷◌, ◌++◌, ◌==◌, ◌&&◌, ◌||◌, find,
  trim_space, if◌then◌else◌,
}
use a6_core.State.Types.{Shortcut, State}
use a6_core.State.Disk.Calls.{Faults}
use a6_core.State.Store.{
  Store, Outcome, commit, abort, Updated, done, refused, unsaved, update, snapshot,
}

pub data ShortcutError : Type 0 where
  not_found invalid_name invalid_url icon_not_found not_saved : ShortcutError

pub data Checked (A : Type 0) : Type 0 where
  fine : A → Checked A
  bad : ShortcutError → Checked A

abbrev pub and_then : {A B : Type 0} → Checked A → (A → Checked B) → Checked B
and_then (fine a) k = k a
and_then (bad e) k = bad e

abbrev pub nonempty : String → Checked String
nonempty name = if name == "" then bad invalid_name else fine name

-- `validateName`
unfoldable pub validate_name : String → Checked String
validate_name name = nonempty (trim_space name)

abbrev pub has_id : String → Shortcut → Bool
has_id id sc = sc.id == id

-- the optional fields of a change
pub record UpdateInput : Type 0 where
  pub name : Option String
  pub url : Option String
  pub icon_id : Option String
  pub refresh_icon : Bool

-- `List`
unfoldable pub list_shortcuts : Store → List Shortcut
list_shortcuts s = (snapshot s).shortcuts

abbrev or_not_found : Option Shortcut → Checked Shortcut
or_not_found none = bad not_found
or_not_found (some sc) = fine sc

-- `Get`
unfoldable pub get_shortcut : String → Store → Checked Shortcut
get_shortcut id s = or_not_found (find (has_id id) (snapshot s).shortcuts)

abbrev pub replace_first : String → Shortcut → List Shortcut → List Shortcut
replace_first id new [] = []
replace_first id new (sc ∷ scs) = if has_id id sc then new ∷ scs else sc ∷ replace_first id new scs

abbrev pub remove_first : String → List Shortcut → List Shortcut
remove_first id [] = []
remove_first id (sc ∷ scs) = if has_id id sc then scs else sc ∷ remove_first id scs

abbrev pub checked_of : {A : Type 0} → Updated ShortcutError (Option A) × Store → Checked A × Store
checked_of (done (some a), t) = (fine a, t)
checked_of (done none, t) = (bad not_found, t)
checked_of (refused e, t) = (bad e, t)
checked_of (unsaved e, t) = (bad not_saved, t)

module _ (parse : String → Option (String × String)) where
  abbrev pub web : Option (String × String) → Bool
  web none = false
  web (some (scheme, host)) = (scheme == "http" || scheme == "https") && not (host == "")

  abbrev pub is_web_url : String → Bool
  is_web_url raw = web (parse raw)

  -- `validateURL`
  unfoldable pub validate_url : String → Checked String
  validate_url raw = if is_web_url raw then fine raw else bad invalid_url

module _ (exists : String → Bool) where
  abbrev pub existing : String → Checked String
  existing icon = if exists icon then fine icon else bad icon_not_found

  module _ (fetch : String → Option String) where
    abbrev pub fetched_or_default : Option String → String
    fetched_or_default none = ""
    fetched_or_default (some icon) = icon

    -- `resolveIcon`
    unfoldable pub resolve_icon : String → String → Checked String
    resolve_icon explicit url =
        if not (explicit == "") then existing explicit else fine (fetched_or_default (fetch url))

    -- the `switch` of `Update`
    abbrev pub change_icon : Option String → Bool → Shortcut → Checked Shortcut
    change_icon (some icon) refresh sc =
        if icon == ""
        then fine (record sc { icon_id = "" })
        else and_then (existing icon) (λ icon. fine (record sc { icon_id = icon }))
    change_icon none true sc = fine (record sc { icon_id = fetched_or_default (fetch sc.url) })
    change_icon none false sc = fine sc

abbrev pub change_name : Option String → Shortcut → Checked Shortcut
change_name none sc = fine sc
change_name (some name) sc = and_then (validate_name name) (λ n. fine (record sc { name = n }))

module _ (parse : String → Option (String × String)) where
  abbrev pub change_url : Option String → Shortcut → Checked Shortcut
  change_url none sc = fine sc
  change_url (some url) sc = and_then (validate_url parse url) (λ u. fine (record sc { url = u }))

  module _ (exists : String → Bool) (fetch : String → Option String) where
    abbrev pub append_shortcut : Shortcut → State → Outcome ShortcutError (Option Shortcut)
    append_shortcut sc st = commit (some sc) (record st { shortcuts = st.shortcuts ++ sc ∷ [] })

    -- what is made of the fields of a new shortcut
    unfoldable pub new_shortcut : String → String → String → String → Checked Shortcut
    new_shortcut id name url icon = and_then (validate_name name) (λ n.
        and_then (validate_url parse url) (λ u.
          and_then (resolve_icon exists fetch icon u)
            (λ i. fine (record { id = id; name = n; url = u; icon_id = i }))))

    abbrev pub create_checked : Faults → Store → Checked Shortcut → Checked Shortcut × Store
    create_checked faults s (bad e) = (bad e, s)
    create_checked faults s (fine sc) = checked_of (update (append_shortcut sc) faults s)

    -- `Create`
    unfoldable pub create :
        Faults → String → String → String → String → Store → Checked Shortcut × Store
    create faults id name url icon s = create_checked faults s (new_shortcut id name url icon)

    unfoldable pub changed : UpdateInput → Shortcut → Checked Shortcut
    changed input sc = and_then (change_name input.name sc) (λ sc.
        and_then (change_url input.url sc)
          (λ sc. change_icon exists fetch input.icon_id input.refresh_icon sc))

    abbrev pub stored_change :
        String → State → Checked Shortcut → Outcome ShortcutError (Option Shortcut)
    stored_change id st (bad e) = abort e
    stored_change id st (fine sc) =
        commit (some sc) (record st { shortcuts = replace_first id sc st.shortcuts })

    abbrev pub change_found :
        String → UpdateInput → State → Option Shortcut → Outcome ShortcutError (Option Shortcut)
    change_found id input st none = commit none st
    change_found id input st (some sc) = stored_change id st (changed input sc)

    -- the function given to the state's `Update`
    abbrev pub change : String → UpdateInput → State → Outcome ShortcutError (Option Shortcut)
    change id input st = change_found id input st (find (has_id id) st.shortcuts)

    -- `Update`
    unfoldable pub update_shortcut :
        Faults → String → UpdateInput → Store → Checked Shortcut × Store
    update_shortcut faults id input s = checked_of (update (change id input) faults s)

abbrev pub drop_found : String → State → Option Shortcut → Outcome ShortcutError (Option Unit)
drop_found id st none = commit none st
drop_found id st (some sc) =
    commit (some tt) (record st { shortcuts = remove_first id st.shortcuts })

abbrev pub drop : String → State → Outcome ShortcutError (Option Unit)
drop id st = drop_found id st (find (has_id id) st.shortcuts)

-- `Delete`
unfoldable pub delete : Faults → String → Store → Checked Unit × Store
delete faults id s = checked_of (update (drop id) faults s)
