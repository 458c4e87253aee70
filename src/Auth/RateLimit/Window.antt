-- ===== src/Auth/RateLimit/Window.antt =====
-- The rate limiter, which forgets old attempts, against one that remembers all that it granted.
use a6_core.Prelude.{
  ℕ, ◌+◌, ◌≤◌, ◌≡◌, refl, ◌∙◌, ap, inl, inr, String, Bool, true, false, not, ◌&&◌, List, [], ◌∷◌,
  ◌++◌, arith, leb, ltb, ◌==◌, length, keep_if, Bool-cases, if◌then◌else◌, eq_of_test, eq_refl,
}
use a6_core.Auth.RateLimit.{
  rate_limit_max, RateLimiter, new_rate_limiter, after_cutoff, allow, granted,
}

-- how many of the times lie less than a window before `now`
abbrev recent : ℕ → List ℕ → ℕ
recent now times = length (keep_if (after_cutoff now) times)

-- A limiter with no state but the times granted to one key so far: it grants a call if fewer than
-- five of those lie in the window before it.
pub reference : String → List ℕ → List (ℕ × String) → List ℕ
reference key past [] = []
reference key past ((now, k) ∷ calls) =
    let ok = (k == key) && ltb (recent now past) rate_limit_max in
    let rest = reference key (if ok then now ∷ past else past) calls in
    if ok then now ∷ rest else rest

-- the clock does not go back
abbrev InOrder : ℕ → List (ℕ × String) → Type 0
InOrder from [] = Unit
InOrder from ((now, k) ∷ calls) = (from ≤ now) × InOrder now calls

recent-append : (t : ℕ) (xs ys : List ℕ) → recent t (xs ++ ys) ≡ recent t xs + recent t ys
recent-append t [] ys = omega arith
recent-append t (x ∷ xs) ys = ground (arith, recent-append t xs ys)

-- what a purge at `now` drops would not count later either
recent-purged :
    (now t : ℕ) (xs : List ℕ) → now ≤ t → recent t (keep_if (after_cutoff now) xs) ≡ recent t xs
recent-purged now t [] h = refl
recent-purged now t (x ∷ xs) h = ground (arith, recent-purged now t xs h)

-- The limiter holds all that still counts of what it granted.
abbrev Remembers : ℕ → List ℕ → List ℕ → Type 0
Remembers from past kept = (t : ℕ) → from ≤ t → recent t kept ≡ recent t past

Remembers-grant :
    (from now : ℕ) (past kept : List ℕ)
    → from ≤ now
    → Remembers from past kept
    → Remembers now (now ∷ past) (keep_if (after_cutoff now) kept ++ now ∷ [])
Remembers-grant from now past kept h r t le =
    recent-append t (keep_if (after_cutoff now) kept) (now ∷ [])
    ∙ ground (arith, recent-purged now t kept le, r t)

Remembers-purge :
    (from now : ℕ) (past kept : List ℕ)
    → from ≤ now
    → Remembers from past kept
    → Remembers now past (keep_if (after_cutoff now) kept)
Remembers-purge from now past kept h r t le = recent-purged now t kept le ∙ r t (omega arith)

Remembers-later :
    (from now : ℕ) (past kept : List ℕ)
    → from ≤ now
    → Remembers from past kept
    → Remembers now past kept
Remembers-later from now past kept h r t le = r t (omega arith)

-- the two tests of a call for the key agree
same_test :
    (from now : ℕ) (past kept : List ℕ)
    → from ≤ now
    → Remembers from past kept
    → leb rate_limit_max (length (keep_if (after_cutoff now) kept))
      ≡ not (ltb (recent now past) rate_limit_max)
same_test from now past kept h r = ground (arith, r now h)

-- The attempts kept for `key` after a call for `k`.
attempts-allow_ne :
    (now : ℕ) (k key : String) (r : RateLimiter)
    → (k == key) ≡ false
    → (allow now k r).1.attempts key ≡ r.attempts key
unfolding allow
attempts-allow_ne now k key r ne =
    elim (Bool-cases (leb rate_limit_max (length (keep_if (after_cutoff now) (r.attempts k))))) [
      | inl full ↦ rw full (rw ne)
      | inr room ↦ rw room (rw ne)
    ]

-- A call for the key itself, by the reference's test.
module _ (from now : ℕ) (key : String) (r : RateLimiter) (past : List ℕ) (h : from ≤ now)
    (m : Remembers from past (r.attempts key)) where
  abbrev kept : List ℕ
  kept = keep_if (after_cutoff now) (r.attempts key)

  allow_room :
      ltb (recent now past) rate_limit_max ≡ true
      → ((allow now key r).0 ≡ true) × ((allow now key r).1.attempts key ≡ kept ++ now ∷ [])
  unfolding allow
  allow_room room =
      let e : leb rate_limit_max (length kept) ≡ false =
        same_test from now past (r.attempts key) h m ∙ ap not room in
      (rw e, rw e (rw (eq_refl key)))

  allow_full :
      ltb (recent now past) rate_limit_max ≡ false
      → ((allow now key r).0 ≡ false) × ((allow now key r).1.attempts key ≡ kept)
  unfolding allow
  allow_full full =
      let e : leb rate_limit_max (length kept) ≡ true =
        same_test from now past (r.attempts key) h m ∙ ap not full in
      (rw e, rw e (rw (eq_refl key)))

granted-eq :
    (key : String) (r : RateLimiter) (past : List ℕ) (from : ℕ) (calls : List (ℕ × String))
    → InOrder from calls
    → Remembers from past (r.attempts key)
    → granted key r calls ≡ reference key past calls
unfolding granted reference
granted-eq key r past from [] o m = refl
granted-eq key r past from ((now, k) ∷ calls) o m = elim (Bool-cases (k == key)) [
  | inr ne ↦
      let m' : Remembers now past ((allow now k r).1.attempts key) =
        rw (attempts-allow_ne now k key r ne)
          (Remembers-later from now past (r.attempts key) o.0 m) in
      rw ne (granted-eq key (allow now k r).1 past now calls o.1 m')
  | inl e ↦ elim (Bool-cases (ltb (recent now past) rate_limit_max)) [
    | inl room ↦
        let (yes_ok, left) = allow_room from now key r past o.0 m room in
        rw (eq_of_test k key e) (
          rw (eq_refl key, yes_ok, room)
            (ap (λ rest. now ∷ rest)
              (granted-eq key (allow now key r).1 (now ∷ past) now calls o.1
                (rw left (Remembers-grant from now past (r.attempts key) o.0 m)))))
    | inr full ↦
        let (not_ok, left) = allow_full from now key r past o.0 m full in
        rw (eq_of_test k key e) (
          rw (eq_refl key, not_ok, full)
            (granted-eq key (allow now key r).1 past now calls o.1
              (rw left (Remembers-purge from now past (r.attempts key) o.0 m))))
  ]
]

-- From the start, whatever calls are made for whatever keys while the clock does not go back, the
-- limiter grants a key exactly the calls that have fewer than five granted calls of that key in
-- the minute before them, although it forgets all older ones.
pub granted-reference :
    (key : String) (calls : List (ℕ × String))
    → InOrder 0 calls
    → granted key new_rate_limiter calls ≡ reference key [] calls
granted-reference key calls o =
    granted-eq key new_rate_limiter [] 0 calls o (unfold new_rate_limiter in λ t le. refl)

-- whether `t` is in the minute that ends with `now`
abbrev in_window : ℕ → ℕ → Bool
in_window now t = leb t now && after_cutoff now t

abbrev pub count_window : ℕ → List ℕ → ℕ
count_window now times = length (keep_if (in_window now) times)

count_window-le-recent : (now : ℕ) (xs : List ℕ) → count_window now xs ≤ recent now xs
count_window-le-recent now [] = omega arith
count_window-le-recent now (x ∷ xs) = ground (arith, count_window-le-recent now xs)

recent_falls : (s t : ℕ) (xs : List ℕ) → s ≤ t → recent t xs ≤ recent s xs
recent_falls s t [] h = omega arith
recent_falls s t (x ∷ xs) h = ground (arith, recent_falls s t xs h)

abbrev Within : List ℕ → Type 0
Within past = (t : ℕ) → count_window t past ≤ rate_limit_max

Within-grant :
    (now : ℕ) (past : List ℕ)
    → ltb (recent now past) rate_limit_max ≡ true
    → Within past
    → Within (now ∷ past)
Within-grant now past room w t = elim (Bool-cases (leb now t)) [
  | inl le ↦ ground (arith, count_window-le-recent t past, recent_falls now t past (ground arith))
  | inr lt ↦ ground (arith, w t)
]

reference_bound :
    (key : String) (past : List ℕ) (calls : List (ℕ × String)) (t : ℕ)
    → Within past
    → count_window t past + count_window t (reference key past calls) ≤ rate_limit_max
unfolding reference
reference_bound key past [] t w = omega (arith, w t)
reference_bound key past ((now, k) ∷ calls) t w =
    let ok = (k == key) && ltb (recent now past) rate_limit_max in
    elim (Bool-cases ok) [
      | inr e ↦ rw e (reference_bound key past calls t w)
      | inl e ↦ rw e (
          let room : ltb (recent now past) rate_limit_max ≡ true = ground arith in
          ground (arith, reference_bound key (now ∷ past) calls t (Within-grant now past room w)))
    ]

-- Whatever calls are made while the clock does not go back, no minute holds more than five granted
-- calls for one key.
pub rate_limit_bound :
    (key : String) (calls : List (ℕ × String)) (t : ℕ)
    → InOrder 0 calls
    → count_window t (granted key new_rate_limiter calls) ≤ rate_limit_max
rate_limit_bound key calls t o =
    rw (granted-reference key calls o)
      (omega (arith, reference_bound key [] calls t (λ u. omega arith)))
