-- ===== src/DbusCtl/Tests.antt =====
-- The bus at concrete answers.
use a6_core.Prelude.{String, true, false, [], ◌≡◌, refl, All, ◌⊎◌}
use a6_core.DbusCtl.{
  Call, login, start_unit_call, stop_unit_call, get_unit, active_state, Reply, refused, text, done,
  failed, not_allowed, stop_unit, bedrock_is_stopped,
}
use a6_core.DbusCtl.Allowed.{IsPermitted, op_state, calls_of, nothing_else_reaches_the_bus}
use a6_core.DbusCtl.Stopped.{IsDown, Unknown, bedrock_is_stopped_lem}

-- systemd knows the unit, whose state is `state`
abbrev bus_with : String → Call → Reply
bus_with state (get_unit unit) = text "/unit"
bus_with state (active_state path) = text state
bus_with state (login method) = text "yes"
bus_with state (start_unit_call unit mode) = text "/job"
bus_with state (stop_unit_call unit mode) = text "/job"

abbrev hanging_bus : Call → Reply
hanging_bus c = refused

nothing_else_reaches_the_bus_example :
    All
      (IsPermitted (bus_with "active"))
      (calls_of (bus_with "active") (op_state "minecraft-bedrock-server.service"))
nothing_else_reaches_the_bus_example =
    nothing_else_reaches_the_bus (bus_with "active") (op_state "minecraft-bedrock-server.service")

other_unit : stop_unit (bus_with "active") "sshd.service" ≡ (failed not_allowed, [])
unfolding stop_unit
other_unit = refl

bedrock_is_stopped_lem_example :
    (bedrock_is_stopped hanging_bus ≡ done true → IsDown hanging_bus ⊎ Unknown hanging_bus)
    × (IsDown hanging_bus ⊎ Unknown hanging_bus → bedrock_is_stopped hanging_bus ≡ done true)
bedrock_is_stopped_lem_example = bedrock_is_stopped_lem hanging_bus

unit_up : bedrock_is_stopped (bus_with "active") ≡ done false
unfolding bedrock_is_stopped
unit_up = refl

unit_down : bedrock_is_stopped (bus_with "failed") ≡ done true
unfolding bedrock_is_stopped
unit_down = refl
