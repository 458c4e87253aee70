-- ===== src/State/Types.antt =====
-- The persisted records of internal/state/state.go. A `time.Time` is a number of nanoseconds.
use a6_core.Prelude.{ℕ, String, Bool, List, []}

-- a value of Go's `any`, as `encoding/json` decodes it
mutual
  pub data Json : Type 0 where
    null : Json
    bool : Bool → Json
    number : String → Json
    string : String → Json
    array : Items → Json
    object : Fields → Json

  pub data Items : Type 0 where
    nil : Items
    cons : Json → Items → Items

  pub data Fields : Type 0 where
    end : Fields
    field : String → Json → Fields → Fields

abbrev pub default_mode : String
default_mode = "tv"

abbrev pub device_type_phone : String
device_type_phone = "phone"

abbrev pub device_type_shell : String
device_type_shell = "shell"

pub record Device : Type 0 where
  pub id : String
  pub name : String
  pub key_hash : String
  pub paired_at : ℕ
  pub last_seen : ℕ
  pub device_type : String
  pub is_primary : Bool

pub record Shortcut : Type 0 where
  pub id : String
  pub name : String
  pub url : String
  pub icon_id : String

pub record Server : Type 0 where
  pub id : String
  pub type : String
  pub name : String
  pub config : Fields

pub record CloudUser : Type 0 where
  pub id : String
  pub username : String
  pub password_hash : String
  pub created_at : ℕ

pub record CloudSession : Type 0 where
  pub id : String
  pub user_id : String
  pub token_hash : String
  pub created_at : ℕ

abbrev pub cloud_category_photo : String
cloud_category_photo = "photo"

abbrev pub cloud_category_video : String
cloud_category_video = "video"

abbrev pub cloud_category_other : String
cloud_category_other = "other"

pub record CloudFile : Type 0 where
  pub id : String
  pub owner_id : String
  pub category : String
  pub filename : String
  pub stored_name : String
  pub size_bytes : ℕ
  pub mime_type : String
  pub uploaded_at : ℕ

pub record Settings : Type 0 where
  pub port : ℕ

pub record State : Type 0 where
  pub core_id : String
  pub core_name : String
  pub mode : String
  pub devices : List Device
  pub shortcuts : List Shortcut
  pub servers : List Server
  pub cloud_users : List CloudUser
  pub cloud_sessions : List CloudSession
  pub cloud_files : List CloudFile
  pub settings : Settings

-- `freshState`; `id` is what `NewID` drew
unfoldable pub fresh_state : String → State
fresh_state id = record {
  core_id = id;
  core_name = "Project A6";
  mode = default_mode;
  devices = [];
  shortcuts = [];
  servers = [];
  cloud_users = [];
  cloud_sessions = [];
  cloud_files = [];
  settings = record { port = 7887 };
}
