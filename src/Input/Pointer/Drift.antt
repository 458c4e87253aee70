-- ===== src/Input/Pointer/Drift.antt =====
-- No part of a motion is lost.
use a6_core.Prelude.{
  ◌≤◌, ◌^◌, ℕ, ◌+◌, ◌*◌, ◌<◌, Bool, ◌&&◌, List, [], ◌∷◌, map, ℤ, pos, pos_part, neg_part, ◌+ℤ◌,
}
use a6_core.Input.Pointer.{Pointer, is_zero, trunc, units}

-- what rounding and narrowing do to numbers that fit
abbrev exact : ℤ → ℤ
exact a = a

abbrev pub sum : List ℤ → ℤ
sum [] = pos 0
sum (a ∷ rest) = a +ℤ sum rest

-- the size of a number
abbrev pub size : ℤ → ℕ
size a = pos_part a + neg_part a

module _ (scale : ℕ) where
  -- how far the pointer was moved along an axis, with the remainder
  abbrev pub travelled_x : Pointer → ℤ
  travelled_x p = sum (map (λ m. units scale m.0) p.moves) +ℤ p.accum_x

  abbrev pub travelled_y : Pointer → ℤ
  travelled_y p = sum (map (λ m. units scale m.1) p.moves) +ℤ p.accum_y

  abbrev pub IsSmall : Pointer → Type 0
  IsSmall p = (size p.accum_x < scale) × (size p.accum_y < scale)

  -- With a pixel added, it fits the 53 bits of a double, and 32 bits in pixels.
  abbrev pub Fits : ℤ → Type 0
  Fits d = (scale + size d ≤ 2 ^ 53) × (scale + size d ≤ 2 ^ 31 * scale)

  module _ (dx dy : ℤ) (p : Pointer) where
    abbrev x : ℤ
    x = p.accum_x +ℤ dx

    abbrev y : ℤ
    y = p.accum_y +ℤ dy

    abbrev rests : Bool
    rests = is_zero (trunc scale x) && is_zero (trunc scale y)
