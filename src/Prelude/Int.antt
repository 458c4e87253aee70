-- ===== src/Prelude/Int.antt =====
-- Signed integers over the native numbers. An equation between them is one between their two parts, which
-- `omega` reads.
use Prim.Native.Nat.{ℕ, zero, suc, ◌+◌, ◌-◌}
use mathlib.Core.Path.{◌≡◌, refl, ap}
use native.Mathlib.Omega.{arith}
use a6_core.Prelude.Tests.{if◌then◌else◌, leb}

-- `negsuc n` is -(n + 1)
pub data ℤ : Type 0 where
  pos negsuc : ℕ → ℤ

abbrev pub pos_part : ℤ → ℕ
pos_part (pos n) = n
pos_part (negsuc n) = 0

abbrev pub neg_part : ℤ → ℕ
neg_part (pos n) = 0
neg_part (negsuc n) = suc n

-- -n
abbrev pub neg : ℕ → ℤ
neg zero = pos 0
neg (suc n) = negsuc n

-- a - b
abbrev pub sub_ℕ : ℕ → ℕ → ℤ
sub_ℕ a b = if leb b a then pos (a - b) else negsuc (b - a - 1)

infixl 65 ◌+ℤ◌ ◌-ℤ◌
abbrev pub ◌+ℤ◌ : ℤ → ℤ → ℤ
a +ℤ b = sub_ℕ (pos_part a + pos_part b) (neg_part a + neg_part b)

abbrev pub ◌-ℤ◌ : ℤ → ℤ → ℤ
a -ℤ b = sub_ℕ (pos_part a + neg_part b) (neg_part a + pos_part b)

pub parts-ext : (a b : ℤ) → pos_part a + neg_part b ≡ pos_part b + neg_part a → a ≡ b
parts-ext (pos m) (pos n) h = ap pos (omega (arith, h))
parts-ext (pos m) (negsuc n) h = absurd (omega (arith, h))
parts-ext (negsuc m) (pos n) h = absurd (omega (arith, h))
parts-ext (negsuc m) (negsuc n) h = ap negsuc (omega (arith, h))

pub parts-sub_ℕ : (a b : ℕ) → pos_part (sub_ℕ a b) + b ≡ a + neg_part (sub_ℕ a b)
parts-sub_ℕ a b = ground arith

-- the parts of a sum and of a difference
pub parts-add :
    (a b : ℤ)
    → pos_part (a +ℤ b) + (neg_part a + neg_part b) ≡ pos_part a + pos_part b + neg_part (a +ℤ b)
parts-add a b = parts-sub_ℕ (pos_part a + pos_part b) (neg_part a + neg_part b)

pub parts-sub :
    (a b : ℤ)
    → pos_part (a -ℤ b) + (neg_part a + pos_part b) ≡ pos_part a + neg_part b + neg_part (a -ℤ b)
parts-sub a b = parts-sub_ℕ (pos_part a + neg_part b) (neg_part a + pos_part b)

pub parts-neg : (n : ℕ) → (pos_part (neg n) ≡ 0) × (neg_part (neg n) ≡ n)
parts-neg zero = (refl, refl)
parts-neg (suc n) = (refl, refl)

pub sub_zero : (a : ℤ) → a -ℤ pos 0 ≡ a
sub_zero a = parts-ext (a -ℤ pos 0) a (omega (arith, parts-sub a (pos 0)))
