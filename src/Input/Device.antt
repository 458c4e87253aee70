-- ===== src/Input/Device.antt =====
-- internal/inputbridge/device.go: the calls of the injector on the two virtual devices. Whether the
-- uinput library succeeds is an argument.
use a6_core.Prelude.{
  ℕ, String, Bool, true, false, Option, none, some, List, [], ◌∷◌, ◌==◌, ℤ, if◌then◌else◌,
}
use a6_core.Input.Keys.{translate_key_code}

-- what `Injector` can be asked for
pub data Call : Type 0 where
  key_down key_up button_down button_up : String → Call
  mouse_move : ℤ → ℤ → Call
  scroll : ℤ → Call

-- the calls of the library
pub data Op : Type 0 where
  press_key release_key : ℕ → Op
  left_press left_release right_press right_release middle_press middle_release : Op
  move : ℤ → ℤ → Op
  wheel : ℤ → Op

pub data InjectError : Type 0 where
  unknown_key_code unknown_button uinput_failed : InjectError

-- the error of a call, and what was asked of the library
abbrev pub run_op : (Op → Bool) → Op → Option InjectError × List Op
run_op ok op = (if ok op then none else some uinput_failed, op ∷ [])

abbrev pub with_code : (Op → Bool) → (ℕ → Op) → Option ℕ → Option InjectError × List Op
with_code ok op none = (some unknown_key_code, [])
with_code ok op (some code) = run_op ok (op code)

abbrev button_op : (Op → Bool) → String → Op → Op → Op → Option InjectError × List Op
button_op ok button left right middle =
    if button == "left"
    then run_op ok left
    else if button == "right"
    then run_op ok right
    else if button == "middle"
    then run_op ok middle
    else (some unknown_button, [])

-- `KeyDown`, `KeyUp`, `MouseMove`, `MouseButtonDown`, `MouseButtonUp` and `Scroll`
unfoldable pub inject : (Op → Bool) → Call → Option InjectError × List Op
inject ok (key_down code) = with_code ok press_key (translate_key_code code)
inject ok (key_up code) = with_code ok release_key (translate_key_code code)
inject ok (mouse_move dx dy) = run_op ok (move dx dy)
inject ok (button_down button) = button_op ok button left_press right_press middle_press
inject ok (button_up button) = button_op ok button left_release right_release middle_release
inject ok (scroll dy) = run_op ok (wheel dy)

-- `Open`: whether both devices were made, and whether the keyboard stays open
abbrev open_devices : Bool → Bool → Bool × Bool
open_devices false mouse_ok = (false, false)
open_devices true false = (false, false)
open_devices true true = (true, true)

-- `Close`, which closes both whatever the first close answers
abbrev close_devices : Bool → Bool → Bool
close_devices true mouse_ok = mouse_ok
close_devices false mouse_ok = false
