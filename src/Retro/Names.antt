-- ===== src/Retro/Names.antt =====
-- internal/retro/retro.go: which file names are games, and their titles.
use Prim.Native.Char.{Char, code}
use Prim.Native.String.{String, [], ◌∷◌}
use a6_core.Prelude.{Bool, false, ◌||◌, eqb, if◌then◌else◌}

abbrev pub is_dot : Char → Bool
is_dot c = eqb (code c) 46

abbrev pub starts_with_dot : String → Bool
starts_with_dot [] = false
starts_with_dot (c ∷ s) = is_dot c

abbrev has_dot : String → Bool
has_dot [] = false
has_dot (c ∷ s) = is_dot c || has_dot s

-- `name[:i]` for the last dot at `i`, or the name
abbrev before_last_dot : String → String
before_last_dot [] = []
before_last_dot (c ∷ s) =
    let rest = before_last_dot s in if has_dot s then c ∷ rest else if is_dot c then [] else c ∷ s

-- the title: the last dot counts only behind the first character
abbrev pub title_of : String → String
title_of [] = []
title_of (c ∷ s) = let rest = before_last_dot s in if has_dot s then c ∷ rest else c ∷ s
