-- ===== src/Cloud/FileNames.antt =====
-- internal/cloud/cloud.go: the names under which uploads are shown and stored. `filepath.Base` and
-- `filepath.Ext` are those of a Unix system.
use Prim.Native.Char.{Char, code}
use Prim.Native.String.{String, [], ◌∷◌, ◌++◌}
use Prim.Native.String.append
use a6_core.Prelude.{
  Bool, false, Option, none, some, ◌≡◌, refl, ◌⊎◌, inl, inr, ◌==◌, ◌||◌, eqb, if◌then◌else◌, arith,
  Bool-cases, ap, ◌∙◌,
}

abbrev is_slash : Char → Bool
is_slash c = eqb (code c) 47

abbrev pub is_dot : Char → Bool
is_dot c = eqb (code c) 46

-- whether a character of the text passes
abbrev has_char : (Char → Bool) → String → Bool
has_char p [] = false
has_char p (c ∷ s) = p c || has_char p s

-- `for len(path) > 0 && path[len(path)-1] == '/'`
abbrev cons_unless_slash : Char → String → String
cons_unless_slash c [] = if is_slash c then [] else c ∷ []
cons_unless_slash c (d ∷ s) = c ∷ d ∷ s

abbrev strip_slashes : String → String
strip_slashes [] = []
strip_slashes (c ∷ s) = cons_unless_slash c (strip_slashes s)

-- what follows the last slash
abbrev last_element : String → String
last_element [] = []
last_element (c ∷ s) =
    let rest = last_element s in
    if has_char is_slash s then rest else if is_slash c then s else c ∷ s

abbrev or_slash : String → String
or_slash s = if s == "" then "/" else s

-- `filepath.Base`
unfoldable pub base : String → String
base s = if s == "" then "." else or_slash (last_element (strip_slashes s))

abbrev named_or_unnamed : String → String
named_or_unnamed n = if n == "." || n == "/" || n == "" then "unnamed" else n

-- `sanitizeDisplayName`
unfoldable pub sanitize_display_name : String → String
sanitize_display_name name = named_or_unnamed (base name)

-- `filepath.Ext`: what begins at the last dot of the last element
abbrev from_last_dot : String → String
from_last_dot [] = []
from_last_dot (c ∷ s) =
    let rest = from_last_dot s in if has_char is_dot s then rest else if is_dot c then c ∷ s else []

abbrev ext : String → String
ext s = from_last_dot (last_element s)

-- the first answer of `mime.ExtensionsByType`, if there is one, before the name's own extension
abbrev extension_or : Option String → String → String
extension_or (some e) filename = e
extension_or none filename = ext (sanitize_display_name filename)

-- `storedExtensionFor`; `extensions` is the system's table
unfoldable pub stored_extension_for : (String → Option String) → String → String → String
stored_extension_for extensions mime filename = extension_or (extensions mime) filename

-- a stored name
unfoldable pub stored_name_for : (String → Option String) → String → String → String → String
stored_name_for extensions id mime filename = id ++ stored_extension_for extensions mime filename

-- The text has no slash: as a path element it cannot leave its directory.
abbrev pub HasNoSlash : String → Type 0
HasNoSlash s = has_char is_slash s ≡ false

last_element-HasNoSlash : (s : String) → HasNoSlash (last_element s)
last_element-HasNoSlash [] = refl
last_element-HasNoSlash (c ∷ s) = ground (arith, last_element-HasNoSlash s)

from_last_dot-HasNoSlash : (s : String) → HasNoSlash s → HasNoSlash (from_last_dot s)
from_last_dot-HasNoSlash [] h = refl
from_last_dot-HasNoSlash (c ∷ s) h = elim (Bool-cases (has_char is_dot s)) [
  | inl later ↦ rw later (from_last_dot-HasNoSlash s (ground arith))
  | inr last ↦ rw last (elim (Bool-cases (is_dot c)) [ inl e ↦ rw e h | inr e ↦ rw e refl ])
]

named_or_unnamed-HasNoSlash :
    (n : String) → (HasNoSlash n ⊎ (n ≡ "/")) → HasNoSlash (named_or_unnamed n)
named_or_unnamed-HasNoSlash n (inr e) = ap (λ x. has_char is_slash (named_or_unnamed x)) e
named_or_unnamed-HasNoSlash n (inl h) = elim (Bool-cases (n == "." || n == "/" || n == "")) [
  | inl e ↦ rw e refl
  | inr e ↦ rw e h
]

or_slash-HasNoSlash : (n : String) → HasNoSlash n → HasNoSlash (or_slash n) ⊎ (or_slash n ≡ "/")
or_slash-HasNoSlash n h = elim (Bool-cases (n == "")) [
  | inl e ↦ inr (rw e refl)
  | inr e ↦ inl (rw e h)
]

-- The name shown for an upload has no slash, whatever name the client sent.
sanitize_display_name-HasNoSlash : (name : String) → HasNoSlash (sanitize_display_name name)
unfolding sanitize_display_name base
sanitize_display_name-HasNoSlash name =
    named_or_unnamed-HasNoSlash (base name) (elim (Bool-cases (name == "")) [
      | inl e ↦ inl (rw e refl)
      | inr e ↦ rw e (
          or_slash-HasNoSlash (last_element (strip_slashes name))
            (last_element-HasNoSlash (strip_slashes name)))
    ])

extension_or-HasNoSlash :
    (o : Option String) (filename : String)
    → ((e : String) → o ≡ some e → HasNoSlash e)
    → HasNoSlash (extension_or o filename)
extension_or-HasNoSlash (some e) filename h = h e refl
extension_or-HasNoSlash none filename h =
    from_last_dot-HasNoSlash (last_element (sanitize_display_name filename))
      (last_element-HasNoSlash (sanitize_display_name filename))

has_char-append :
    (p : Char → Bool) (s t : String) → has_char p (s ++ t) ≡ (has_char p s || has_char p t)
has_char-append p [] t = ap (has_char p) (append.nil t)
has_char-append p (c ∷ s) t =
    ap (has_char p) (append.cons c s t) ∙ ground (arith, has_char-append p s t)

-- Where the system's table of extensions has none with a slash, and the drawn id has none, the name
-- under which an upload is stored has none, whatever name and type the client sent.
pub stored_name_for-HasNoSlash :
    (extensions : String → Option String) (id mime filename : String)
    → ((m e : String) → extensions m ≡ some e → HasNoSlash e)
    → HasNoSlash id
    → HasNoSlash (stored_name_for extensions id mime filename)
unfolding stored_name_for stored_extension_for
stored_name_for-HasNoSlash extensions id mime filename table h =
    has_char-append is_slash id (extension_or (extensions mime) filename)
    ∙ rw h (extension_or-HasNoSlash (extensions mime) filename (table mime))
