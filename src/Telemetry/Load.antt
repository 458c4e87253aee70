-- ===== src/Telemetry/Load.antt =====
-- The CPU's share of busy time between two readings.
use a6_core.Prelude.{
  ℕ, suc, ◌+◌, ◌-◌, ◌^◌, ◌≤◌, ◌<◌, String, false, Option, none, some, List, [], ◌∷◌, ◌≡◌, ◌∙◌, ap,
  length, ltb, eqb, if_lem, arith,
}
use native.Mathlib.Nat.{mod-eq_of_lt}
use a6_core.Telemetry.Words.{fields, parse_uint}
use a6_core.Telemetry.{
  CpuSample, add_u64, sub_u64, add_columns, sample_of, read_cpu_sample, Sampler, tick, Share,
  percent_between, cpu_percent,
}

-- the columns of the line of all processors, of which the fourth is the idle time
pub record Columns : Type 0 where
  pub user : ℕ
  pub nice : ℕ
  pub system : ℕ
  pub idle : ℕ
  pub rest : List ℕ

abbrev pub sum : List ℕ → ℕ
sum [] = 0
sum (n ∷ ns) = n + sum ns

-- the time that was not idle
abbrev pub busy_time : Columns → ℕ
busy_time c = c.user + c.nice + c.system + sum c.rest

-- The fields are the texts of the numbers.
abbrev pub Numbers : List String → List ℕ → Type 0
Numbers [] [] = Unit
Numbers (f ∷ fs) (n ∷ ns) = (parse_uint f ≡ some n) × Numbers fs ns
Numbers _ _ = ⊥

abbrev pub IsReading : String → Columns → Type 0
IsReading line c =
    (fs : List String) × (fields line ≡ "cpu" ∷ fs)
    × Numbers fs (c.user ∷ c.nice ∷ c.system ∷ c.idle ∷ c.rest)

-- Neither the idle time nor that of all the rest went back, and the whole fits 64 bits.
pub record Advances (before after : Columns) : Type 0 where
  pub busy : busy_time before ≤ busy_time after
  pub idle : before.idle ≤ after.idle
  pub fits : busy_time after + after.idle < 2 ^ 64

-- no answer when no time passed, or the busy time that passed, of all that passed
abbrev pub IsShare : Columns → Columns → Option Share → Type 0
IsShare b a none = busy_time a + a.idle ≡ busy_time b + b.idle
IsShare b a (some s) =
    (s.busy + busy_time b ≡ busy_time a)
    × (s.total + (busy_time b + b.idle) ≡ busy_time a + a.idle)
    × (0 < s.total)
    × (s.busy ≤ s.total)

add_u64_lem : (a b : ℕ) → a + b < 2 ^ 64 → add_u64 a b ≡ a + b
add_u64_lem a b h = mod-eq_of_lt h

-- The columns after the idle one only add to the total.
later_columns :
    (i : ℕ) (fs : List String) (ns : List ℕ) (s : CpuSample)
    → 3 < i
    → Numbers fs ns
    → s.total + sum ns < 2 ^ 64
    → add_columns i s fs ≡ record { idle = s.idle; total = s.total + sum ns }
later_columns i [] [] s h p fits =
    let e : s.total ≡ s.total + 0 = omega arith in ap (λ t. record { idle = s.idle; total = t }) e
later_columns i [] (n ∷ ns) s h p fits = absurd p
later_columns i (f ∷ fs) [] s h p fits = absurd p
later_columns i (f ∷ fs) (n ∷ ns) s h (pf, p) fits =
    let later : eqb i 3 ≡ false = ground (arith, h) in
    let e : s.total + n + sum ns ≡ s.total + (n + sum ns) = omega arith in
    rw pf (
      rw (later, add_u64_lem s.total n (omega (arith, fits)))
        (later_columns (suc i) fs ns (record { idle = s.idle; total = s.total + n })
            (omega (arith, h)) p (omega (arith, fits))
          ∙ ap (λ t. record { idle = s.idle; total = t }) e))

abbrev sample : Columns → CpuSample
sample c = record { idle = c.idle; total = busy_time c + c.idle }

read_lem :
    (line : String) (c : Columns)
    → IsReading line c
    → busy_time c + c.idle < 2 ^ 64
    → read_cpu_sample (some line) ≡ some (sample c)
unfolding read_cpu_sample
read_lem line c (f ∷ g ∷ h ∷ i ∷ fs, split, (pf, (pg, (ph, (pi, p))))) fits =
    let short : ltb (length ("cpu" ∷ f ∷ g ∷ h ∷ i ∷ fs)) 5 ≡ false = ground arith in
    let four : add_u64 (add_u64 (add_u64 (add_u64 0 c.user) c.nice) c.system) c.idle
        ≡ c.user + c.nice + c.system + c.idle =
      omega (arith, fits) in
    let whole : c.user + c.nice + c.system + c.idle + sum c.rest ≡ busy_time c + c.idle =
      omega arith in
    ap sample_of split
    ∙ rw short (
        rw (pf, pg, ph, pi)
          (ap some (
            ap (λ t. add_columns 4 (record { idle = c.idle; total = t }) fs) four
            ∙ later_columns 4 fs c.rest
                (record { idle = c.idle; total = c.user + c.nice + c.system + c.idle })
                (omega arith) p (omega (arith, fits))
            ∙ ap (λ t. record { idle = c.idle; total = t }) whole)))
read_lem line c ([], split, p) fits = absurd p
read_lem line c (f ∷ [], split, p) fits = absurd p.1
read_lem line c (f ∷ g ∷ [], split, p) fits = absurd p.1.1
read_lem line c (f ∷ g ∷ h ∷ [], split, p) fits = absurd p.1.1.1

sub_u64_lem : (a b : ℕ) → b ≤ a → a < 2 ^ 64 → sub_u64 a b ≡ a - b
sub_u64_lem a b le fits = omega (arith, le, fits)

percent_lem :
    (b a : Columns)
    → Advances b a
    → IsShare b a (percent_between (some (sample b)) (some (sample a)))
percent_lem b a h =
    let total = busy_time a + a.idle - (busy_time b + b.idle) in
    rw
      (
        sub_u64_lem (busy_time a + a.idle) (busy_time b + b.idle) (omega (arith, h.busy, h.idle))
            h.fits,
        sub_u64_lem a.idle b.idle h.idle (omega (arith, h.fits)),
      )
      (if_lem (IsShare b a) (eqb total 0) none _
        (λ e. let z : total ≡ 0 = ground (arith, e) in omega (arith, z, h.busy, h.idle))
        (λ e.
          let positive : 0 < total = ground (arith, e) in
          let d =
            sub_u64_lem total (a.idle - b.idle) (omega (arith, h.busy, h.idle))
              (omega (arith, h.fits)) in
          rw d (
            omega (arith, h.busy, h.idle),
            omega (arith, h.busy, h.idle),
            positive,
            omega (arith, h.busy, h.idle),
          )))

-- Between two readings whose fields are all numbers, such that neither the idle time nor the sum of all the
-- other columns went back (a single one of them may have) and the sums fit 64 bits, the sampler answers no
-- share exactly when no time passed, and otherwise the difference of the time that was not idle, of the
-- difference of the whole time: no difference wraps round, and the percentage is at most 100.
pub cpu_percent-IsShare :
    (s : Sampler) (line_before line_after : String) (before after : Columns)
    → IsReading line_before before
    → IsReading line_after after
    → Advances before after
    → IsShare before after (cpu_percent (tick (some line_after) (tick (some line_before) s)))
unfolding cpu_percent tick
cpu_percent-IsShare s line_before line_after b a rb ra h =
    rw
      (
        read_lem line_before b rb (omega (arith, h.busy, h.idle, h.fits)),
        read_lem line_after a ra h.fits,
      )
      (percent_lem b a h)
