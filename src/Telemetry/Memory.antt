-- ===== src/Telemetry/Memory.antt =====
-- internal/telemetry/telemetry.go: `ReadMemInfo`, `DiskFreeGB`.
use a6_core.Prelude.{
  ℕ, ◌-◌, ◌*◌, ◌/◌, ◌%◌, ◌^◌, ◌≤◌, String, Option, none, some, List, [], ◌∷◌, leb, ◌==◌,
  if◌then◌else◌, arith,
}
use a6_core.Telemetry.Words.{fields, trim_colon, parse_uint}

pub record MemInfo : Type 0 where
  pub ram_total_mb : ℕ
  pub ram_used_mb : ℕ
  pub swap_used_mb : ℕ

-- the map `values`; a key that it lacks is `none`
abbrev Values : Type 0
Values = String → Option ℕ

abbrev put : String → Option ℕ → Values → Values
put key none values = values
put key (some v) values = λ k. if key == k then some v else values k

abbrev put_line : List String → Values → Values
put_line (key ∷ v ∷ rest) values = put (trim_colon key) (parse_uint v) values
put_line _ values = values

-- the loop over the lines
abbrev values_of : List String → Values → Values
values_of [] values = values
values_of (line ∷ lines) values = values_of lines (put_line (fields line) values)

abbrev or_zero : Option ℕ → ℕ
or_zero none = 0
or_zero (some v) = v

abbrev used_kb : ℕ → Option ℕ → ℕ
used_kb total none = 0
used_kb total (some available) = if leb available total then total - available else 0

abbrev swap_used_kb : ℕ → ℕ → ℕ
swap_used_kb total free = if leb free total then total - free else 0

abbrev mem_info : Values → Option ℕ → Option MemInfo
mem_info values none = none
mem_info values (some total) = some (record {
  ram_total_mb = total / 1024;
  ram_used_mb = used_kb total (values "MemAvailable") / 1024;
  swap_used_mb = swap_used_kb (or_zero (values "SwapTotal")) (or_zero (values "SwapFree")) / 1024;
})

abbrev no_values : Values
no_values key = none

abbrev read_lines : Option (List String) → Option MemInfo
read_lines none = none
read_lines (some lines) =
    let values = values_of lines no_values in mem_info values (values "MemTotal")

-- `ReadMemInfo`; `none` stands for its errors, and `lines` are those of /proc/meminfo, if it can be read
unfoldable pub read_mem_info : Option (List String) → Option MemInfo
read_mem_info lines = read_lines lines

-- `DiskFreeGB`, of the fields that `Statfs` fills
unfoldable disk_free_gb : Option (ℕ × ℕ) → Option ℕ
disk_free_gb none = none
disk_free_gb (some (bavail, bsize)) = some (bavail * bsize % 2 ^ 64 / (1024 * 1024 * 1024))

div_le : (a b : ℕ) → a ≤ b → a / 1024 ≤ b / 1024
div_le a b h = omega (arith, h)

used_kb_le : (total : ℕ) (available : Option ℕ) → used_kb total available ≤ total
used_kb_le total none = omega arith
used_kb_le total (some available) = ground arith

abbrev pub IsWithin : Option MemInfo → Type 0
IsWithin none = Unit
IsWithin (some m) = m.ram_used_mb ≤ m.ram_total_mb

mem_info-IsWithin : (values : Values) (total : Option ℕ) → IsWithin (mem_info values total)
mem_info-IsWithin values none = tt
mem_info-IsWithin values (some total) = div_le _ _ (used_kb_le total (values "MemAvailable"))

-- Whatever /proc/meminfo holds, no more memory is reported as used than there is: a difference that would be
-- negative does not wrap round.
pub used_memory-IsWithin : (lines : Option (List String)) → IsWithin (read_mem_info lines)
unfolding read_mem_info
used_memory-IsWithin none = tt
used_memory-IsWithin (some lines) =
    let values = values_of lines no_values in mem_info-IsWithin values (values "MemTotal")
