-- ===== src/DbusCtl.antt =====
-- internal/dbusctl/dbusctl.go, and what main.go makes of it: the executors of the game server and
-- of the machine, and the status of the game server at start. `bus` is what a call over D-Bus comes
-- to; a call that is not answered within its timeout is refused.
pub mod Allowed
pub mod Stopped
mod Tests
use a6_core.Prelude.{String, Bool, true, false, List, [], ◌∷◌, ◌==◌, ◌||◌, if◌then◌else◌}
use a6_core.Servers.Manager.{RuntimeMap, running, sync_initial_status}

-- a call of a method of logind or of systemd, or of `GetProperty` on the path of a unit
pub data Call : Type 0 where
  login : String → Call
  start_unit_call stop_unit_call : String → String → Call
  get_unit : String → Call
  active_state : String → Call

-- `refused` is an error, and `other` an answer that is no text and no path
pub data Reply : Type 0 where
  refused other : Reply
  text : String → Reply

pub data DbusError : Type 0 where
  not_allowed call_failed unexpected_shape not_read not_text : DbusError

pub data Outcome (A : Type 0) : Type 0 where
  done : A → Outcome A
  failed : DbusError → Outcome A

-- an outcome with the calls that were made, in their order
abbrev pub Made : Type 0 → Type 0
Made A = Outcome A × List Call

abbrev pub allowed_units : List String
allowed_units = "minecraft-bedrock-server.service" ∷ []

abbrev is_among : String → List String → Bool
is_among unit [] = false
is_among unit (u ∷ us) = (unit == u) || is_among unit us

abbrev pub is_allowed : String → Bool
is_allowed unit = is_among unit allowed_units

abbrev pub accepted : Reply → Outcome Unit
accepted refused = failed call_failed
accepted _ = done tt

abbrev pub text_of : Reply → Outcome String
text_of (text s) = done s
text_of other = failed unexpected_shape
text_of refused = failed call_failed

abbrev pub property_of : Reply → Outcome String
property_of (text s) = done s
property_of other = failed not_text
property_of refused = failed not_read

module _ (bus : Call → Reply) where
  abbrev pub call : String → Made Unit
  call method = (accepted (bus (login method)), login method ∷ [])

  abbrev pub can_query : String → Made String
  can_query method = (text_of (bus (login method)), login method ∷ [])

  abbrev pub reboot : Made Unit
  reboot = call "Reboot"

  abbrev pub power_off : Made Unit
  power_off = call "PowerOff"

  abbrev pub can_reboot : Made String
  can_reboot = can_query "CanReboot"

  abbrev pub can_power_off : Made String
  can_power_off = can_query "CanPowerOff"

  abbrev pub act_on : Call → Made Unit
  act_on c = (accepted (bus c), c ∷ [])

  unfoldable pub start_unit : String → Made Unit
  start_unit unit =
      if is_allowed unit then act_on (start_unit_call unit "replace") else (failed not_allowed, [])

  unfoldable pub stop_unit : String → Made Unit
  stop_unit unit =
      if is_allowed unit then act_on (stop_unit_call unit "replace") else (failed not_allowed, [])

  abbrev pub state_at : String → Reply → Made String
  state_at unit refused = (done "inactive", get_unit unit ∷ [])
  state_at unit other = (failed unexpected_shape, get_unit unit ∷ [])
  state_at unit (text path) =
      (property_of (bus (active_state path)), get_unit unit ∷ active_state path ∷ [])

  unfoldable pub unit_active_state : String → Made String
  unit_active_state unit =
      if is_allowed unit then state_at unit (bus (get_unit unit)) else (failed not_allowed, [])

  abbrev pub bedrock_unit : String
  bedrock_unit = "minecraft-bedrock-server.service"

  -- `bedrockExecutor`, whose broadcast does nothing
  abbrev pub bedrock_start : Made Unit
  unfolding start_unit
  bedrock_start = start_unit bedrock_unit

  abbrev pub bedrock_stop : Made Unit
  unfolding stop_unit
  bedrock_stop = stop_unit bedrock_unit

  abbrev pub reads_stopped : Outcome String → Outcome Bool
  reads_stopped (done state) = done (state == "inactive" || state == "failed")
  reads_stopped (failed e) = failed e

  unfoldable pub bedrock_is_stopped : Outcome Bool
  unfolding unit_active_state
  bedrock_is_stopped = reads_stopped (unit_active_state bedrock_unit).0

  abbrev pub synced : Outcome String → RuntimeMap → RuntimeMap
  unfolding sync_initial_status
  synced (failed e) m = m
  synced (done state) m = if state == "active" then sync_initial_status "minecraft" running m else m

  -- the status of the game server at start
  unfoldable pub sync_at_start : RuntimeMap → RuntimeMap
  unfolding unit_active_state
  sync_at_start m = synced (unit_active_state bedrock_unit).0 m
