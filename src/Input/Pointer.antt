-- ===== src/Input/Pointer.antt =====
-- internal/input/input.go: `dispatchPointerMove`. A pixel is `scale` units, and deltas and remainders are
-- whole numbers of units. How a sum of doubles is rounded, and what `int32` makes of a number of pixels, which
-- Go leaves open for one that does not fit, are the parameters `round` and `narrow`. Taking the whole pixels off a
-- double is exact.
pub mod Drift
use a6_core.Prelude.{
  ℕ, suc, ◌*◌, ◌/◌, Bool, true, false, ◌&&◌, List, [], ◌∷◌, eqb, ◌+◌, if◌then◌else◌, ℤ, pos, negsuc,
  pos_part, neg_part, neg, ◌+ℤ◌, ◌-ℤ◌,
}

-- the remainders of a controller, and the moves that were injected, the last one first
pub record Pointer : Type 0 where
  pub accum_x : ℤ
  pub accum_y : ℤ
  pub moves : List (ℤ × ℤ)

abbrev pub is_zero : ℤ → Bool
is_zero a = eqb (pos_part a + neg_part a) 0

module _ (scale : ℕ) where
  -- `math.Trunc`, in pixels
  abbrev pub trunc : ℤ → ℤ
  trunc (pos n) = pos (n / scale)
  trunc (negsuc n) = neg (suc n / scale)

  -- pixels in units
  abbrev pub units : ℤ → ℤ
  units (pos n) = pos (n * scale)
  units (negsuc n) = neg (suc n * scale)

module _ (scale : ℕ) (round narrow : ℤ → ℤ) where
  -- the remainders are `x` and `y` once the deltas are added
  abbrev pub move_whole : ℤ → ℤ → Pointer → Pointer
  move_whole x y p =
      if is_zero (trunc scale x) && is_zero (trunc scale y)
      then record p { accum_x = x; accum_y = y }
      else record {
        accum_x = x -ℤ units scale (trunc scale x);
        accum_y = y -ℤ units scale (trunc scale y);
        moves = (narrow (trunc scale x), narrow (trunc scale y)) ∷ p.moves;
      }

  -- `dispatchPointerMove`
  unfoldable pub dispatch_pointer_move : ℤ → ℤ → Pointer → Pointer
  dispatch_pointer_move dx dy p = move_whole (round (p.accum_x +ℤ dx)) (round (p.accum_y +ℤ dy)) p

  -- the messages of a controller, one after the other
  unfoldable pub dispatch_moves : List (ℤ × ℤ) → Pointer → Pointer
  unfolding dispatch_pointer_move
  dispatch_moves [] p = p
  dispatch_moves ((dx, dy) ∷ ds) p = dispatch_moves ds (dispatch_pointer_move dx dy p)
