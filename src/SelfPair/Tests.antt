-- ===== src/SelfPair/Tests.antt =====
-- The shell at a concrete server.
use a6_core.Prelude.{true, some, [], ◌≡◌, refl, trim_space, ◌==◌, if◌then◌else◌}
use a6_core.SelfPair.{
  missing, whole, left, error, empty_key_file, pair_first_time, Core, Shell, ensure_device_key,
}

abbrev core : Core
core = record {
  info = λ key. some (if key == "k1" then 200 else 401);
  generate = some (record { status = 200; field = some "T" });
  pair = λ token name. some (record { status = 200; field = some "k9" });
}

abbrev new_shell : Shell
new_shell = record { file = missing; sent = [] }

-- The disk was full when the key was written: the next start finds an empty key and does not pair.
locked_out :
    (ensure_device_key core true true whole
      (ensure_device_key core true true (left "") new_shell).1).0
    ≡ error empty_key_file
unfolding ensure_device_key pair_first_time trim_space
locked_out = refl
