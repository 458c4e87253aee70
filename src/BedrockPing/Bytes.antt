-- ===== src/BedrockPing/Bytes.antt =====
-- The library functions on strings that internal/bedrockping/bedrockping.go uses: `strings.Split` at a byte,
-- and `strconv.Atoi`.
use a6_core.Prelude.{
  ℤ, pos, negsuc, ℕ, zero, suc, ◌+◌, ◌-◌, ◌*◌, ◌^◌, Bool, ◌&&◌, Option, none, some, List, [], ◌∷◌,
  ltb, leb, eqb, if◌then◌else◌,
}

abbrev cons_first : ℕ → List (List ℕ) → List (List ℕ)
cons_first b [] = (b ∷ []) ∷ []
cons_first b (f ∷ fs) = (b ∷ f) ∷ fs

-- `strings.Split`
abbrev pub split : ℕ → List ℕ → List (List ℕ)
split sep [] = [] ∷ []
split sep (b ∷ bs) = let rest = split sep bs in if eqb b sep then [] ∷ rest else cons_first b rest

abbrev is_digit : ℕ → Bool
is_digit b = leb 48 b && leb b 57

abbrev digits : ℕ → List ℕ → Option ℕ
digits acc [] = some acc
digits acc (b ∷ bs) =
    let rest = digits (acc * 10 + (b - 48)) bs in if is_digit b then rest else none

abbrev unsigned : List ℕ → Option ℕ
unsigned [] = none
unsigned (b ∷ bs) = digits 0 (b ∷ bs)

abbrev positive : Option ℕ → Option ℤ
positive none = none
positive (some n) = if ltb n (2 ^ 63) then some (pos n) else none

abbrev negative : Option ℕ → Option ℤ
negative none = none
negative (some zero) = some (pos 0)
negative (some (suc n)) = if ltb n (2 ^ 63) then some (negsuc n) else none

-- `strconv.Atoi`: an optional sign and digits, within the range of an `int`
abbrev pub atoi : List ℕ → Option ℤ
atoi [] = none
atoi (b ∷ bs) =
    if eqb b 45
    then negative (unsigned bs)
    else if eqb b 43
    then positive (unsigned bs)
    else positive (unsigned (b ∷ bs))
