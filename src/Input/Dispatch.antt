-- ===== src/Input/Dispatch.antt =====
-- internal/input/input.go: `dispatch`. `Call` is what is asked of the injector, and `answer` the error that
-- it answers; the numbers are as in Input.Pointer.
pub mod Reports
mod Tests
use a6_core.Prelude.{
  ℕ, String, Bool, true, false, Option, none, some, List, [], ◌∷◌, ◌++◌, ◌==◌, ◌&&◌, if◌then◌else◌,
  ℤ, ◌+ℤ◌, ◌-ℤ◌,
}
use a6_core.Input.Control.{Outbound, error, Controller, enqueue}
use a6_core.Input.Device.{
  Call, key_down, key_up, button_down, button_up, mouse_move, scroll, InjectError,
}
use a6_core.Input.Pointer.{Pointer, is_zero, trunc, units}

-- `inboundEnvelope`
pub record Envelope : Type 0 where
  pub type : String
  pub code : String
  pub action : String
  pub dx : ℤ
  pub dy : ℤ
  pub button : String

-- a controller with its remainders, and what was asked of the injector, the last call first
pub record Remote : Type 0 where
  pub controller : Controller
  pub accum_x : ℤ
  pub accum_y : ℤ
  pub calls : List Call

-- what `dispatch` does with an envelope: call the injector, move the pointer, or report it
pub data Action : Type 0 where
  calls_injector : Call → Action
  moves_pointer : Action
  unknown_action unknown_type : Action

abbrev pub up_or_down : Call → Call → String → Action
up_or_down down up action =
    if action == "down"
    then calls_injector down
    else if action == "up"
    then calls_injector up
    else unknown_action

abbrev pub failed : Remote → Remote
failed s = record s { controller = enqueue (error "dispatch_failed") s.controller }

module _ (scale : ℕ) (round narrow : ℤ → ℤ) where
  -- the `switch` of `dispatch`
  unfoldable pub action_of : Envelope → Action
  action_of env =
      if env.type == "key"
      then up_or_down (key_down env.code) (key_up env.code) env.action
      else if env.type == "pointer_move"
      then moves_pointer
      else if env.type == "pointer_button"
      then up_or_down (button_down env.button) (button_up env.button) env.action
      else if env.type == "pointer_scroll"
      then calls_injector (scroll (narrow (trunc scale env.dy)))
      else unknown_type

  module _ (answer : Call → Option InjectError) where
    abbrev pub report : Option InjectError → Remote → Remote
    report none s = s
    report (some e) s = failed s

    abbrev pub call : Call → Remote → Remote
    call c s = report (answer c) (record s { calls = c ∷ s.calls })

    -- the remainders are `x` and `y` once the deltas are added
    abbrev pub move_by : ℤ → ℤ → Remote → Remote
    move_by x y s =
        if is_zero (trunc scale x) && is_zero (trunc scale y)
        then record s { accum_x = x; accum_y = y }
        else call (mouse_move (narrow (trunc scale x)) (narrow (trunc scale y))) (record s {
          accum_x = x -ℤ units scale (trunc scale x);
          accum_y = y -ℤ units scale (trunc scale y);
        })

    abbrev pub act : Envelope → Action → Remote → Remote
    act env (calls_injector c) s = call c s
    act env moves_pointer s = move_by (round (s.accum_x +ℤ env.dx)) (round (s.accum_y +ℤ env.dy)) s
    act env unknown_action s = failed s
    act env unknown_type s = failed s

    -- `dispatch`
    unfoldable pub dispatch : Envelope → Remote → Remote
    unfolding action_of
    dispatch env s = act env (action_of env) s

    -- the body of `readLoop` on a frame, which decodes to an envelope or not
    unfoldable pub read_frame : Option Envelope → Remote → Remote
    unfolding dispatch
    read_frame none s = record s { controller = enqueue (error "invalid_json") s.controller }
    read_frame (some env) s = dispatch env s
