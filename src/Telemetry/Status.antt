-- ===== src/Telemetry/Status.antt =====
-- main.go: `statusProvider`, which puts the readings together, and internal/events/events.go:
-- `StatusTick`, with the fields that `omitempty` leaves out.
use a6_core.Prelude.{
  ℕ, ℤ, pos, pos_part, neg_part, ◌+◌, String, Option, none, some, eqb, ◌==◌, if◌then◌else◌,
}
use a6_core.Telemetry.{Share}
use a6_core.Telemetry.Memory.{MemInfo}

-- The load is a share, the temperature in thousandths of a degree.
pub record StatusTick : Type 0 where
  pub mode : String
  pub uptime_seconds : ℕ
  pub cpu_percent : Share
  pub ram_used_mb : ℕ
  pub ram_total_mb : ℕ
  pub swap_used_mb : ℕ
  pub temperature_c : ℤ
  pub disk_free_gb : ℕ
  pub network_ip : String
  pub network_interface : String
  pub timestamp : String

-- what the functions of internal/telemetry answer, and the clock
pub record Readings : Type 0 where
  pub mem : Option MemInfo
  pub uptime : Option ℕ
  pub disk_free : Option ℕ
  pub cpu : Option Share
  pub temp : Option ℤ
  pub network : Option (String × String)
  pub now : String

abbrev or_else : {A : Type 0} → Option A → A → A
or_else none a = a
or_else (some b) a = b

abbrev no_mem : MemInfo
no_mem = record { ram_total_mb = 0; ram_used_mb = 0; swap_used_mb = 0 }

abbrev no_load : Share
no_load = record { busy = 0; total = 1 }

abbrev pub status_provider : String → Readings → StatusTick
status_provider mode r =
    let mem = or_else r.mem no_mem in
    let net = or_else r.network ("", "") in
    record {
      mode = mode;
      uptime_seconds = or_else r.uptime 0;
      cpu_percent = or_else r.cpu no_load;
      ram_used_mb = mem.ram_used_mb;
      ram_total_mb = mem.ram_total_mb;
      swap_used_mb = mem.swap_used_mb;
      temperature_c = or_else r.temp (pos 0);
      disk_free_gb = or_else r.disk_free 0;
      network_ip = net.0;
      network_interface = net.1;
      timestamp = r.now;
    }

-- the fields that may be left out of the event
pub record Optional : Type 0 where
  pub cpu_percent : Option Share
  pub temperature_c : Option ℤ
  pub network_ip : Option String
  pub network_interface : Option String

abbrev text_unless_empty : String → Option String
text_unless_empty s = if s == "" then none else some s

abbrev pub optional_fields : StatusTick → Optional
optional_fields t = record {
  cpu_percent = if eqb t.cpu_percent.busy 0 then none else some t.cpu_percent;
  temperature_c =
      if eqb (pos_part t.temperature_c + neg_part t.temperature_c) 0
      then none
      else some t.temperature_c;
  network_ip = text_unless_empty t.network_ip;
  network_interface = text_unless_empty t.network_interface;
}
