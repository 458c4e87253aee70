-- ===== src/Telemetry.antt =====
-- internal/telemetry/telemetry.go: what it makes of the files below /proc and of the answers of the system,
-- which are arguments.
pub mod Words
pub mod Memory
pub mod Sensors
pub mod Load
pub mod Status
mod Tests
use a6_core.Prelude.{
  ℕ, zero, suc, ◌+◌, ◌-◌, ◌^◌, ◌%◌, String, Bool, Option, none, some, List, [], ◌∷◌, length, ltb,
  eqb, ◌==◌, ◌||◌, not, if◌then◌else◌,
}
use a6_core.Telemetry.Words.{fields, parse_uint}

-- `cpuSample`, without the time, which is never read
pub record CpuSample : Type 0 where
  pub idle : ℕ
  pub total : ℕ

-- `total += v` on 64 bits
abbrev pub add_u64 : ℕ → ℕ → ℕ
add_u64 a b = (a + b) % 2 ^ 64

-- `a - b` on 64 bits
abbrev pub sub_u64 : ℕ → ℕ → ℕ
sub_u64 a b = (a + 2 ^ 64 - b) % 2 ^ 64

abbrev pub add_column : ℕ → CpuSample → Option ℕ → CpuSample
add_column i s none = s
add_column i s (some v) = record { idle = if eqb i 3 then v else s.idle; total = add_u64 s.total v }

-- the loop over the columns; `i` is the index of the first
abbrev pub add_columns : ℕ → CpuSample → List String → CpuSample
add_columns i s [] = s
add_columns i s (f ∷ fs) = add_columns (suc i) (add_column i s (parse_uint f)) fs

abbrev pub no_time : CpuSample
no_time = record { idle = 0; total = 0 }

abbrev pub sample_of : List String → Option CpuSample
sample_of [] = none
sample_of (name ∷ columns) =
    if ltb (length (name ∷ columns)) 5 || not (name == "cpu")
    then none
    else some (add_columns 0 no_time columns)

-- `readCPUSample`; `line` is the first line of /proc/stat, if it can be read and there is one
unfoldable pub read_cpu_sample : Option String → Option CpuSample
read_cpu_sample none = none
read_cpu_sample (some line) = sample_of (fields line)

-- `Sampler`
pub record Sampler : Type 0 where
  pub previous : Option CpuSample
  pub current : Option CpuSample

-- `NewSampler`
abbrev pub new_sampler : Sampler
new_sampler = record { previous = none; current = none }

abbrev pub shift : Option CpuSample → Sampler → Sampler
shift none s = s
shift (some sample) s = record { previous = s.current; current = some sample }

-- `tick`
unfoldable pub tick : Option String → Sampler → Sampler
tick line s = shift (read_cpu_sample line) s

-- A share of busy time: `busy` of `total`, of which the code makes the double 100 * busy / total.
pub record Share : Type 0 where
  pub busy : ℕ
  pub total : ℕ

abbrev pub share_of : ℕ → ℕ → Option Share
share_of total_delta idle_delta =
    if eqb total_delta 0
    then none
    else some (record { busy = sub_u64 total_delta idle_delta; total = total_delta })

abbrev pub percent_between : Option CpuSample → Option CpuSample → Option Share
percent_between (some p) (some c) = share_of (sub_u64 c.total p.total) (sub_u64 c.idle p.idle)
percent_between _ _ = none

-- `CPUPercent`
unfoldable pub cpu_percent : Sampler → Option Share
cpu_percent s = percent_between s.previous s.current
