-- ===== src/DbusCtl/Allowed.antt =====
-- What internal/dbusctl ever asks of the system.
use a6_core.Prelude.{
  String, true, List, [], ◌≡◌, refl, ◌==◌, subst, sym, eq_of_test, Bool-cases, inl, inr, All,
  if_lem, if◌then◌else◌,
}
use a6_core.DbusCtl.{
  Call, login, start_unit_call, stop_unit_call, get_unit, active_state, Reply, refused, other, text,
  Made, is_allowed, reboot, power_off, can_reboot, can_power_off, start_unit, stop_unit,
  unit_active_state, state_at, act_on, failed, not_allowed,
}

abbrev pub bedrock : String
bedrock = "minecraft-bedrock-server.service"

-- the calls that the program may make: two actions of logind and the questions for them, and what
-- is done with the one unit, whose path is what systemd answers
pub data IsPermitted (bus : Call → Reply) : Call → Type 0 where
  reboots : IsPermitted bus (login "Reboot")
  powers_off : IsPermitted bus (login "PowerOff")
  may_reboot : IsPermitted bus (login "CanReboot")
  may_power_off : IsPermitted bus (login "CanPowerOff")
  starts : IsPermitted bus (start_unit_call bedrock "replace")
  stops : IsPermitted bus (stop_unit_call bedrock "replace")
  looks_up : IsPermitted bus (get_unit bedrock)
  asks_state :
      (path : String) → bus (get_unit bedrock) ≡ text path → IsPermitted bus (active_state path)

-- every operation of the client, with the texts that its callers choose
pub data Operation : Type 0 where
  op_reboot op_power_off op_can_reboot op_can_power_off : Operation
  op_start op_stop op_state : String → Operation

module _ (bus : Call → Reply) where
  abbrev pub calls_of : Operation → List Call
  unfolding start_unit stop_unit unit_active_state
  calls_of op_reboot = (reboot bus).1
  calls_of op_power_off = (power_off bus).1
  calls_of op_can_reboot = (can_reboot bus).1
  calls_of op_can_power_off = (can_power_off bus).1
  calls_of (op_start unit) = (start_unit bus unit).1
  calls_of (op_stop unit) = (stop_unit bus unit).1
  calls_of (op_state unit) = (unit_active_state bus unit).1

  abbrev Permitted : {A : Type 0} → Made A → Type 0
  Permitted m = All (IsPermitted bus) m.1

  unit_of : (unit : String) → is_allowed unit ≡ true → unit ≡ bedrock
  unit_of unit test = elim (Bool-cases (unit == bedrock)) [
    | inl e ↦ eq_of_test unit bedrock e
    | inr e ↦ absurd (cc (test, e))
  ]

  guarded :
      {A : Type 0} (made : String → Made A) (unit : String)
      → Permitted (made bedrock)
      → Permitted (if is_allowed unit then made unit else (failed not_allowed, []))
  guarded made unit h =
      if_lem Permitted (is_allowed unit) (made unit) _
        (λ test. subst (λ u. Permitted (made u)) (sym (unit_of unit test)) h) (λ _. tt)

  -- Whatever operation is called and whatever unit it is called with, every call that reaches the
  -- bus is one of those permitted: no method of logind but these four, and no unit but that of the
  -- game server.
  pub nothing_else_reaches_the_bus : (op : Operation) → All (IsPermitted bus) (calls_of op)
  unfolding calls_of start_unit stop_unit unit_active_state
  nothing_else_reaches_the_bus op_reboot = (reboots, tt)
  nothing_else_reaches_the_bus op_power_off = (powers_off, tt)
  nothing_else_reaches_the_bus op_can_reboot = (may_reboot, tt)
  nothing_else_reaches_the_bus op_can_power_off = (may_power_off, tt)
  nothing_else_reaches_the_bus (op_start unit) =
      guarded (λ u. act_on bus (start_unit_call u "replace")) unit (starts, tt)
  nothing_else_reaches_the_bus (op_stop unit) =
      guarded (λ u. act_on bus (stop_unit_call u "replace")) unit (stops, tt)
  nothing_else_reaches_the_bus (op_state unit) =
      guarded (λ u. state_at bus u (bus (get_unit u))) unit
        (looked_up (bus (get_unit bedrock)) refl)
    where
      looked_up :
          (reply : Reply) → bus (get_unit bedrock) ≡ reply → Permitted (state_at bus bedrock reply)
      looked_up refused h = (looks_up, tt)
      looked_up other h = (looks_up, tt)
      looked_up (text path) h = (looks_up, (asks_state path h, tt))
