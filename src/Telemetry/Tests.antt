-- ===== src/Telemetry/Tests.antt =====
-- Readings of /proc at concrete texts.
use a6_core.Prelude.{
  Option, pos, String, none, some, List, [], ◌∷◌, ◌≡◌, refl, arith, negsuc, trim_space,
}
use a6_core.Telemetry.Status.{Readings, status_provider, optional_fields}
use a6_core.Telemetry.{Share, new_sampler, read_cpu_sample, tick, cpu_percent}
use a6_core.Telemetry.Load.{Columns, IsShare, cpu_percent-IsShare}
use a6_core.Telemetry.Memory.{read_mem_info}
use a6_core.Telemetry.Sensors.{temperature}

abbrev earlier : Columns
earlier = record { user = 10; nice = 0; system = 5; idle = 70; rest = 4 ∷ [] }

-- The time of waiting for input and output went back.
abbrev later : Columns
later = record { user = 20; nice = 0; system = 5; idle = 80; rest = 3 ∷ [] }

cpu_percent-IsShare_example :
    IsShare earlier later
      (cpu_percent (tick (some "cpu 20 0 5 80 3") (tick (some "cpu 10 0 5 70 4") new_sampler)))
cpu_percent-IsShare_example =
    cpu_percent-IsShare new_sampler "cpu 10 0 5 70 4" "cpu 20 0 5 80 3" earlier later
      ("10" ∷ "0" ∷ "5" ∷ "70" ∷ "4" ∷ [], refl, (refl, (refl, (refl, (refl, (refl, tt))))))
      ("20" ∷ "0" ∷ "5" ∷ "80" ∷ "3" ∷ [], refl, (refl, (refl, (refl, (refl, (refl, tt))))))
      (record { busy = omega arith; idle = omega arith; fits = omega arith })

half_busy :
    cpu_percent (tick (some "cpu 20 0 5 80 0") (tick (some "cpu 10 0 5 70 0") new_sampler))
    ≡ some (record { busy = 10; total = 20 })
unfolding cpu_percent tick read_cpu_sample
half_busy = refl

abbrev more_available : List String
more_available = "MemTotal: 2048 kB" ∷ "MemAvailable: 4096 kB" ∷ []

nothing_used :
    read_mem_info (some more_available)
    ≡ some (record { ram_total_mb = 2; ram_used_mb = 0; swap_used_mb = 0 })
unfolding read_mem_info
nothing_used = refl

freezing : temperature (some ((none ∷ some "-500\n" ∷ []) ∷ [])) ≡ some (negsuc 499)
unfolding temperature trim_space
freezing = refl

-- readings of an idle machine, and of one whose load is not known yet
abbrev readings_with : Option Share → Readings
readings_with cpu = record {
  mem = none;
  uptime = some 60;
  disk_free = some 12;
  cpu = cpu;
  temp = some (pos 41500);
  network = none;
  now = "2026-01-01T00:00:00Z";
}

idle_looks_unready :
    optional_fields
      (status_provider "smart_tv" (readings_with (some (record { busy = 0; total = 400 }))))
    ≡ optional_fields (status_provider "smart_tv" (readings_with none))
idle_looks_unready = refl
