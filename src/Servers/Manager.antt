-- ===== src/Servers/Manager.antt =====
-- internal/servers/servers.go: the catalog, the runtime state, and the operations that finish at once.
use a6_core.Prelude.{ℤ, pos_part}
use a6_core.Prelude.{
  ℕ, String, Bool, true, false, ◌&&◌, Option, none, some, List, [], ◌∷◌, ◌++◌, map, find, ltb, ◌==◌,
  if◌then◌else◌,
}

pub data Status : Type 0 where
  stopped starting running stopping : Status

pub data ServerError : Type 0 where
  not_found already_running stop_in_progress not_running start_failed : ServerError

pub data Result (A : Type 0) : Type 0 where
  ok : A → Result A
  err : ServerError → Result A

pub record Definition : Type 0 where
  pub id : String
  pub typ : String
  pub name : String
  pub port : ℕ

abbrev pub catalog : List Definition
catalog =
    record { id = "minecraft"; typ = "minecraft-bedrock"; name = "Survival World"; port = 19132 }
    ∷ []

abbrev pub has_id : String → Definition → Bool
has_id id d = d.id == id

abbrev pub find_definition : String → Option Definition
find_definition id = find (has_id id) catalog

pub record Players : Type 0 where
  pub current : ℤ
  pub max : ℤ

pub record Server : Type 0 where
  pub id : String
  pub type : String
  pub name : String
  pub status : Status
  pub players : Option Players
  pub port : ℕ

pub record Runtime : Type 0 where
  pub status : Status
  pub players : Option Players
  pub stop_running : Bool

abbrev pub idle : Runtime
idle = record { status = stopped; players = none; stop_running = false }

-- the map `runtime`, which has a key for each id of the catalog
abbrev pub RuntimeMap : Type 0
RuntimeMap = String → Option Runtime

abbrev pub assign : String → Runtime → RuntimeMap → RuntimeMap
assign id rt m j = if id == j then some rt else m j

-- `if rt, ok := m.runtime[id]; ok { … }`
abbrev pub modify_found : String → (Runtime → Runtime) → RuntimeMap → Option Runtime → RuntimeMap
modify_found id f m none = m
modify_found id f m (some rt) = assign id (f rt) m

abbrev pub modify : String → (Runtime → Runtime) → RuntimeMap → RuntimeMap
modify id f m = modify_found id f m (m id)

abbrev idle_entries : List Definition → RuntimeMap
idle_entries [] j = none
idle_entries (d ∷ ds) j = if d.id == j then some idle else idle_entries ds j

-- `NewManager`; the executor and the durations are arguments where they are used
unfoldable pub new_manager : RuntimeMap
new_manager = idle_entries catalog

abbrev pub to_server : Definition → Runtime → Server
to_server d rt = record {
  id = d.id;
  type = d.typ;
  name = d.name;
  status = rt.status;
  players = rt.players;
  port = d.port;
}

-- a read of `m.runtime[id]` at an id of the catalog
abbrev pub or_idle : Option Runtime → Runtime
or_idle none = idle
or_idle (some rt) = rt

-- `List`
unfoldable pub list_servers : RuntimeMap → List Server
list_servers m = map (λ d. to_server d (or_idle (m d.id))) catalog

abbrev get_defined : RuntimeMap → String → Option Definition → Result Server
get_defined m id none = err not_found
get_defined m id (some d) = ok (to_server d (or_idle (m id)))

-- `Get`
unfoldable pub get_server : String → RuntimeMap → Result Server
get_server id m = get_defined m id (find_definition id)

abbrev pub is_running : Status → Bool
is_running running = true
is_running _ = false

pub record BlockingResource : Type 0 where
  pub type : String
  pub id : String
  pub players : ℤ

abbrev pub busy : String → Status → Option Players → List BlockingResource
busy id status none = []
busy id status (some p) =
    if is_running status && ltb 0 (pos_part p.current)
    then record { type = "server"; id = id; players = p.current } ∷ []
    else []

abbrev pub blocking_from : RuntimeMap → List Definition → List BlockingResource
blocking_from m [] = []
blocking_from m (d ∷ ds) =
    let rt = or_idle (m d.id) in busy d.id rt.status rt.players ++ blocking_from m ds

-- `Blocking`; the keys of the map are the ids of the catalog
unfoldable pub blocking : RuntimeMap → List BlockingResource
blocking m = blocking_from m catalog

abbrev pub with_status : Status → Runtime → Runtime
with_status status rt = record rt { status = status }

-- `setStatus`
unfoldable pub set_status : String → Status → RuntimeMap → RuntimeMap
set_status id status = modify id (with_status status)

-- `SyncInitialStatus`
unfoldable pub sync_initial_status : String → Status → RuntimeMap → RuntimeMap
sync_initial_status id status = modify id (with_status status)

-- `SetPlayers`
unfoldable pub set_players : String → Option Players → RuntimeMap → RuntimeMap
set_players id players = modify id (λ rt. record rt { players = players })
