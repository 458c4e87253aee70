-- ===== src/Samples.antt =====
-- Concrete values for the tests and the examples of the other modules.
use a6_core.Prelude.{String, ◌==◌, true, false, none, some, [], ◌∷◌}
use a6_core.State.Types.{Device, State}
use a6_core.State.Disk.Calls.{Disk, Faults}
use a6_core.State.Disk.Crash.{saved}
use a6_core.State.Store.{Store}
use a6_core.Cloud.Accounts.{Crypto}
use a6_core.Http.{v4, post, Request, Body, Context, Env}
use a6_core.Server.App.{App}

-- stands for SHA-256: it only has to tell the sample keys apart
abbrev pub hash : String → String
hash key = key

-- tells the sample passwords and names apart
abbrev pub crypto : Crypto
crypto = record {
  hash = hash;
  bcrypt = λ password. some password;
  verifies = λ h password. h == password;
  same_name = λ a b. a == b;
}

abbrev pub shell : Device
shell = record {
  id = "d1";
  name = "TV Shell";
  key_hash = "k1";
  paired_at = 10;
  last_seen = 10;
  device_type = "shell";
  is_primary = true;
}

abbrev pub phone : Device
phone = record {
  id = "d2";
  name = "Phone";
  key_hash = "k2";
  paired_at = 20;
  last_seen = 20;
  device_type = "phone";
  is_primary = false;
}

abbrev pub empty_state : State
empty_state = record {
  core_id = "core";
  core_name = "Project A6";
  mode = "tv";
  devices = [];
  shortcuts = [];
  servers = [];
  cloud_users = [];
  cloud_sessions = [];
  cloud_files = [];
  settings = record { port = 7887 };
}

abbrev pub two_devices : State
two_devices = record empty_state { devices = shell ∷ phone ∷ [] }

abbrev pub disk_of : State → Disk
disk_of st = record {
  primary = saved st;
  backup = none;
  temp = none;
  backup_temp = none;
  corrupt = [];
}

abbrev pub store_of : State → Store
store_of st = record { state = st; disk = disk_of st }

abbrev pub calm : Faults
calm c = false

-- a pairing token "T" is open until 1000
abbrev pub app_of : State → App
app_of st = record {
  store = store_of st;
  pairing = record { tokens = λ t. some 1000 };
  rate_limit = record { attempts = λ key. [] };
  published = [];
}

abbrev pub env : Env
env = record {
  now = 100;
  stamp = 101;
  touch_faults = calm;
  faults = calm;
  new_id = "d3";
  new_key = some "k3";
  new_token = some "T";
}

abbrev pub context : Context
context = record { device = none; cloud_user = none }

abbrev pub request : String → String → Body → Request
request authorization path_id body = record {
  method = post;
  host = "192.168.1.9";
  ip = some (v4 192 168 1 9);
  authorization = authorization;
  query_token = "";
  path_id = path_id;
  body = body;
}
