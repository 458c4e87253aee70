-- ===== src/Config.antt =====
-- internal/config/config.go: the settings read at start. `decode` is `json.Unmarshal`, by the
-- fields that a text has.
use a6_core.Prelude.{String, Option, none, some, ◌==◌, if◌then◌else◌}

record Config : Type 0 where
  app_env : String
  log_level : String
  data_dir : String

abbrev default_config : Config
default_config = record { app_env = "development"; log_level = "info"; data_dir = "./data" }

-- the fields that are there
record Settings : Type 0 where
  app_env : Option String
  log_level : Option String
  data_dir : Option String

-- what `os.ReadFile` comes to
data Reading : Type 0 where
  missing unreadable : Reading
  contents : String → Reading

abbrev or_default : Option String → String → String
or_default none value = value
or_default (some v) value = v

abbrev with_settings : Option Settings → Option Config
with_settings none = none
with_settings (some s) = some (record {
  app_env = or_default s.app_env default_config.app_env;
  log_level = or_default s.log_level default_config.log_level;
  data_dir = or_default s.data_dir default_config.data_dir;
})

abbrev read_config : (String → Option Settings) → Reading → Option Config
read_config decode missing = some default_config
read_config decode unreadable = none
read_config decode (contents text) = with_settings (decode text)

-- `LoadConfig`; `none` is an error
unfoldable load_config : (String → Option Settings) → (String → Reading) → String → Option Config
load_config decode read path =
    if path == "" then some default_config else read_config decode (read path)
