-- ===== src/Telemetry/Words.antt =====
-- The library functions on texts that internal/telemetry/telemetry.go uses: `strings.Fields`,
-- `strings.TrimSuffix` of a colon, `strconv.ParseUint` and `strconv.ParseInt` of 64 bits.
use Prim.Native.Char.{Char, code}
use Prim.Native.String.{[], ◌∷◌}
use a6_core.Prelude.{
  ℕ, zero, suc, ◌+◌, ◌-◌, ◌*◌, ◌^◌, String, Bool, ◌&&◌, Option, none, some, ltb, leb, eqb, ◌==◌,
  is_space, if◌then◌else◌, ℤ, pos, negsuc, List,
}
use mathlib.Core.List.{[], ◌∷◌}

abbrev cons_word : String → List String → List String
cons_word w words = if w == "" then words else w ∷ words

-- the word that a text begins with, and the words after it
abbrev split_words : String → String × List String
split_words [] = ([], [])
split_words (c ∷ s) =
    let (w, words) = split_words s in if is_space c then ([], cons_word w words) else (c ∷ w, words)

-- `strings.Fields`
abbrev pub fields : String → List String
fields s = let (w, words) = split_words s in cons_word w words

-- `strings.TrimSuffix(s, ":")`
abbrev pub trim_colon : String → String
trim_colon [] = []
trim_colon (c ∷ []) = if eqb (code c) 58 then [] else c ∷ []
trim_colon (c ∷ d ∷ s) = c ∷ trim_colon (d ∷ s)

abbrev is_digit : Char → Bool
is_digit c = leb 48 (code c) && leb (code c) 57

abbrev digits : ℕ → String → Option ℕ
digits acc [] = some acc
digits acc (c ∷ s) =
    let rest = digits (acc * 10 + (code c - 48)) s in if is_digit c then rest else none

abbrev unsigned : String → Option ℕ
unsigned [] = none
unsigned (c ∷ s) = digits 0 (c ∷ s)

abbrev below : ℕ → Option ℕ → Option ℕ
below bound none = none
below bound (some n) = if ltb n bound then some n else none

-- `strconv.ParseUint`
abbrev pub parse_uint : String → Option ℕ
parse_uint s = below (2 ^ 64) (unsigned s)

abbrev positive : Option ℕ → Option ℤ
positive none = none
positive (some n) = if ltb n (2 ^ 63) then some (pos n) else none

abbrev negative : Option ℕ → Option ℤ
negative none = none
negative (some zero) = some (pos 0)
negative (some (suc n)) = if ltb n (2 ^ 63) then some (negsuc n) else none

-- `strconv.ParseInt`
abbrev pub parse_int : String → Option ℤ
parse_int [] = none
parse_int (c ∷ s) =
    if eqb (code c) 45
    then negative (unsigned s)
    else if eqb (code c) 43
    then positive (unsigned s)
    else positive (unsigned (c ∷ s))
