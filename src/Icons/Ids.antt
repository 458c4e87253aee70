-- ===== src/Icons/Ids.antt =====
-- internal/icons/icons.go: `idPattern`, the shape of an id of an icon.
use Prim.Native.Char.{Char, code}
use Prim.Native.String.{[], ◌∷◌}
use mathlib.Core.List.{[], ◌∷◌}
use a6_core.Prelude.{ℕ, zero, suc, String, Bool, true, false, ◌&&◌, ◌||◌, leb, eqb, List, ◌++◌}

abbrev is_hex : Char → Bool
is_hex c = (leb 48 (code c) && leb (code c) 57) || (leb 97 (code c) && leb (code c) 102)

abbrev is_dash : Char → Bool
is_dash c = eqb (code c) 45

abbrev repeat : ℕ → List (Char → Bool)
repeat zero = []
repeat (suc n) = is_hex ∷ repeat n

abbrev shape : List (Char → Bool)
shape =
    repeat 8
    ++ is_dash ∷ repeat 4
    ++ is_dash ∷ repeat 4
    ++ is_dash ∷ repeat 4
    ++ is_dash ∷ repeat 12

abbrev fits : List (Char → Bool) → String → Bool
fits [] [] = true
fits (p ∷ ps) (c ∷ s) = p c && fits ps s
fits _ _ = false

-- `idPattern.MatchString`
unfoldable pub is_icon_id : String → Bool
is_icon_id s = fits shape s
