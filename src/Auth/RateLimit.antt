-- ===== src/Auth/RateLimit.antt =====
-- internal/auth/ratelimit.go. Times are nanoseconds since a moment before the program started; the
-- comparison with `cutoff` is written without its subtraction.
pub mod Window
mod Tests
use a6_core.Prelude.{
  ℕ, suc, ◌+◌, ◌*◌, String, Bool, true, false, not, ◌&&◌, List, [], ◌∷◌, ◌++◌, leb, ltb, ◌==◌,
  length, keep_if, if◌then◌else◌,
}

abbrev rate_limit_window : ℕ
rate_limit_window = 60 * 1000000000

abbrev pub rate_limit_max : ℕ
rate_limit_max = 5

-- a missing key reads as an empty slice
pub record RateLimiter : Type 0 where
  pub attempts : String → List ℕ

unfoldable pub new_rate_limiter : RateLimiter
new_rate_limiter = record { attempts = λ key. [] }

-- `t.After(now.Add(-rateLimitWindow))`
abbrev pub after_cutoff : ℕ → ℕ → Bool
after_cutoff now t = ltb now (t + rate_limit_window)

abbrev pub put : RateLimiter → String → List ℕ → RateLimiter
put r key kept = record { attempts = λ k. if key == k then kept else r.attempts k }

-- `Allow`; `now` is what `time.Now` answers
unfoldable pub allow : ℕ → String → RateLimiter → Bool × RateLimiter
allow now key r =
    let kept = keep_if (after_cutoff now) (r.attempts key) in
    if leb rate_limit_max (length kept)
    then (false, put r key kept)
    else (true, put r key (kept ++ now ∷ []))

-- the times at which a sequence of calls (time, key) is answered `true` for `key`
unfoldable pub granted : String → RateLimiter → List (ℕ × String) → List ℕ
unfolding allow
granted key r [] = []
granted key r ((now, k) ∷ calls) =
    let (ok, r') = allow now k r in
    let rest = granted key r' calls in if (k == key) && ok then now ∷ rest else rest
