-- ===== src/Auth/RateLimit/Tests.antt =====
-- Tests of the rate limiter.
use a6_core.Prelude.{ℕ, ◌+◌, ◌*◌, String, ◌≡◌, refl, List, [], ◌∷◌, arith}
use a6_core.Auth.RateLimit.{granted, new_rate_limiter}
use a6_core.Auth.RateLimit.Window.{reference, granted-reference}

-- six attempts of one address within a second, one of another, and one a minute after the first
abbrev calls : List (ℕ × String)
calls =
    (1, "a")
    ∷ (2, "a")
    ∷ (3, "a")
    ∷ (4, "b")
    ∷ (5, "a")
    ∷ (6, "a")
    ∷ (7, "a")
    ∷ (60 * 1000000000 + 1, "a")
    ∷ []

sixth_is_refused : granted "a" new_rate_limiter calls ≡ 1 ∷ 2 ∷ 3 ∷ 5 ∷ 6 ∷ 60000000001 ∷ []
unfolding granted new_rate_limiter
sixth_is_refused = refl

granted-reference_example : granted "a" new_rate_limiter calls ≡ reference "a" [] calls
granted-reference_example = granted-reference "a" calls (omega arith)
