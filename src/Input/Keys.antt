-- ===== src/Input/Keys.antt =====
-- internal/inputbridge/keymap.go.
use a6_core.Prelude.{
  inl, inr, ℕ, String, Bool, true, not, Option, none, some, List, [], ◌∷◌, ◌≡◌, refl, sym, ◌∙◌,
  ◌==◌, ◌&&◌, eqb, any, Bool-cases, eq_of_test, arith, if◌then◌else◌,
}

abbrev Table : Type 0
Table = List (String × ℕ)

abbrev key_code_map : Table
key_code_map =
    ("ArrowUp", 103)
    ∷ ("ArrowDown", 108)
    ∷ ("ArrowLeft", 105)
    ∷ ("ArrowRight", 106)
    ∷ ("Enter", 28)
    ∷ ("Escape", 1)
    ∷ ("Backspace", 14)
    ∷ ("Tab", 15)
    ∷ ("Space", 57)
    ∷ ("ShiftLeft", 42)
    ∷ ("ShiftRight", 54)
    ∷ ("ControlLeft", 29)
    ∷ ("AltLeft", 56)
    ∷ ("KeyA", 30)
    ∷ ("KeyB", 48)
    ∷ ("KeyC", 46)
    ∷ ("KeyD", 32)
    ∷ ("KeyE", 18)
    ∷ ("KeyF", 33)
    ∷ ("KeyG", 34)
    ∷ ("KeyH", 35)
    ∷ ("KeyI", 23)
    ∷ ("KeyJ", 36)
    ∷ ("KeyK", 37)
    ∷ ("KeyL", 38)
    ∷ ("KeyM", 50)
    ∷ ("KeyN", 49)
    ∷ ("KeyO", 24)
    ∷ ("KeyP", 25)
    ∷ ("KeyQ", 16)
    ∷ ("KeyR", 19)
    ∷ ("KeyS", 31)
    ∷ ("KeyT", 20)
    ∷ ("KeyU", 22)
    ∷ ("KeyV", 47)
    ∷ ("KeyW", 17)
    ∷ ("KeyX", 45)
    ∷ ("KeyY", 21)
    ∷ ("KeyZ", 44)
    ∷ ("Digit0", 11)
    ∷ ("Digit1", 2)
    ∷ ("Digit2", 3)
    ∷ ("Digit3", 4)
    ∷ ("Digit4", 5)
    ∷ ("Digit5", 6)
    ∷ ("Digit6", 7)
    ∷ ("Digit7", 8)
    ∷ ("Digit8", 9)
    ∷ ("Digit9", 10)
    ∷ []

abbrev mouse_button_map : Table
mouse_button_map = ("left", 0x110) ∷ ("right", 0x111) ∷ ("middle", 0x112) ∷ []

abbrev lookup : String → Table → Option ℕ
lookup key [] = none
lookup key ((k, v) ∷ rest) = if k == key then some v else lookup key rest

-- `TranslateKeyCode`
unfoldable pub translate_key_code : String → Option ℕ
translate_key_code code = lookup code key_code_map

-- `TranslateMouseButton`
unfoldable translate_mouse_button : String → Option ℕ
translate_mouse_button button = lookup button mouse_button_map

abbrev has_value : ℕ → String × ℕ → Bool
has_value v e = eqb e.1 v

-- whether no two entries of a table have the same value
abbrev values_differ : Table → Bool
values_differ [] = true
values_differ (e ∷ rest) = not (any (has_value e.1) rest) && values_differ rest

lookup-any : (key : String) (v : ℕ) (t : Table) → lookup key t ≡ some v → any (has_value v) t ≡ true
lookup-any key v [] h = absurd (cc h)
lookup-any key v ((k, w) ∷ rest) h = elim (Bool-cases (k == key)) [
  | inl e ↦ ground arith
  | inr e ↦ ground (arith, lookup-any key v rest)
]

-- a value that the first entry has is not found below it
first_only :
    (key : String) (v : ℕ) (rest : Table)
    → values_differ ((key, v) ∷ rest) ≡ true
    → (other : String) → lookup other rest ≡ some v
    → ⊥
first_only key v rest d other h = absurd (ground (arith, lookup-any other v rest h))

lookup_injective :
    (a b : String) (v : ℕ) (t : Table)
    → values_differ t ≡ true
    → lookup a t ≡ some v
    → lookup b t ≡ some v
    → a ≡ b
lookup_injective a b v [] d ha hb = absurd (cc ha)
lookup_injective a b v ((k, w) ∷ rest) d ha hb = elim (Bool-cases (k == a)) [
  | inl ea ↦ elim (Bool-cases (k == b)) [
    | inl eb ↦ sym (eq_of_test k a ea) ∙ eq_of_test k b eb
    | inr nb ↦ absurd (first_only k w rest d b (ground arith))
  ]
  | inr na ↦ elim (Bool-cases (k == b)) [
    | inl eb ↦ absurd (first_only k w rest d a (ground arith))
    | inr nb ↦ lookup_injective a b v rest (ground arith) (ground arith) (ground arith)
  ]
]

-- Two key codes of a phone that are translated to the same evdev code are the same.
translate_key_code_injective :
    (a b : String) (v : ℕ) → translate_key_code a ≡ some v → translate_key_code b ≡ some v → a ≡ b
unfolding translate_key_code
translate_key_code_injective a b v ha hb = lookup_injective a b v key_code_map refl ha hb
