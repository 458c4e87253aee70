-- ===== src/Slices.antt =====
-- Go's indexing and slicing, with what is out of range as a value: how code that reads bytes ends,
-- and the rules by which it stays in range.
use a6_core.Prelude.{
  ℕ, zero, suc, ◌+◌, ◌<◌, Bool, true, false, none, some, List, [], ◌∷◌, ◌≡◌, ◌≢◌, refl, length,
  get_elem?, take, drop, ltb, if_lem, arith, if◌then◌else◌,
}

-- Go's pair of a result and an error; `panicked` is an index or a slice out of range
pub data Parsed (E A : Type 0) : Type 0 where
  parsed : A → Parsed E A
  failed : E → Parsed E A
  panicked : Parsed E A

infixl 5 ◌>>=◌
abbrev pub ◌>>=◌ : {E A B : Type 0} → Parsed E A → (A → Parsed E B) → Parsed E B
parsed a >>= k = k a
failed e >>= k = failed e
panicked >>= k = panicked

-- `xs[i]`
abbrev pub index : {E A : Type 0} → List A → ℕ → Parsed E A
index xs i = elim (get_elem? xs i) [ none ↦ panicked | some x ↦ parsed x ]

-- `xs[from : from+n]`
abbrev pub slice : {E A : Type 0} → List A → ℕ → ℕ → Parsed E (List A)
slice xs from n = if ltb (length xs) (from + n) then panicked else parsed (take n (drop from xs))

-- `if … { return …, err }`
abbrev pub fail_if : {E : Type 0} → Bool → E → Parsed E Unit
fail_if true e = failed e
fail_if false e = parsed tt

module _ {E : Type 0} where
  abbrev pub IsSafe : {A : Type 0} → Parsed E A → Type 0
  IsSafe m = m ≢ panicked

  pub parsed-IsSafe : {A : Type 0} (a : A) → IsSafe (parsed a)
  parsed-IsSafe a h = cc h

  pub failed-IsSafe : {A : Type 0} (e : E) → IsSafe {A = A} (failed e)
  failed-IsSafe e h = cc h

  pub index-IsSafe : {A : Type 0} (xs : List A) (i : ℕ) → i < length xs → IsSafe (index xs i)
  index-IsSafe [] i h = absurd (omega (arith, h))
  index-IsSafe (x ∷ xs) zero h = parsed-IsSafe x
  index-IsSafe (x ∷ xs) (suc i) h = index-IsSafe xs i (omega (arith, h))

  pub slice-IsSafe :
      {A : Type 0} (xs : List A) (from n : ℕ)
      → ltb (length xs) (from + n) ≡ false
      → IsSafe (slice xs from n)
  slice-IsSafe xs from n h =
      if_lem IsSafe (ltb (length xs) (from + n)) panicked _ (λ e. absurd (cc (e, h)))
        (λ _. parsed-IsSafe (take n (drop from xs)))

  pub bind-IsSafe :
      {A B : Type 0} (m : Parsed E A) (k : A → Parsed E B)
      → IsSafe m
      → ((a : A) → m ≡ parsed a → IsSafe (k a))
      → IsSafe (m >>= k)
  bind-IsSafe (parsed a) k h f = f a refl
  bind-IsSafe (failed e) k h f = failed-IsSafe e
  bind-IsSafe panicked k h f = absurd (h refl)

  -- what follows a check may rely on it
  pub check-IsSafe :
      {B : Type 0} (b : Bool) (e : E) (k : Unit → Parsed E B)
      → (b ≡ false → IsSafe (k tt))
      → IsSafe (fail_if b e >>= k)
  check-IsSafe true e k f = failed-IsSafe e
  check-IsSafe false e k f = f refl
