-- ===== src/Input/Dispatch/Tests.antt =====
-- Messages of a phone at concrete values. A pixel is four units.
use a6_core.Prelude.{Bool, true, [], ◌∷◌, List, ◌≡◌, refl, ℤ, pos, negsuc}
use a6_core.Input.Control.{new_controller}
use a6_core.Input.Device.{Op}
use a6_core.Input.Pointer.{Pointer, dispatch_pointer_move, dispatch_moves}
use a6_core.Input.Dispatch.{Envelope, Remote, dispatch}
use a6_core.Input.Dispatch.Reports.{answers, DispatchEnds, dispatch_lem}

-- numbers that are small enough for a double and for 32 bits
abbrev exact : ℤ → ℤ
exact a = a

abbrev at_rest : Pointer
at_rest = record { accum_x = pos 0; accum_y = pos 0; moves = [] }

-- three steps of half a pixel to the right, and up
abbrev drag : List (ℤ × ℤ)
drag = (pos 2, negsuc 1) ∷ (pos 2, negsuc 1) ∷ (pos 2, negsuc 1) ∷ []

one_pixel_moved : (dispatch_moves 4 exact exact drag at_rest).moves ≡ (pos 1, negsuc 0) ∷ []
unfolding dispatch_moves dispatch_pointer_move
one_pixel_moved = refl

abbrev remote : Remote
remote = record {
  controller = new_controller "Phone";
  accum_x = pos 0;
  accum_y = pos 0;
  calls = [];
}

abbrev enter : Envelope
enter = record {
  type = "key";
  code = "Enter";
  action = "down";
  dx = pos 0;
  dy = pos 0;
  button = "";
}

abbrev works : Op → Bool
works op = true

dispatch_lem_example :
    DispatchEnds 4 exact exact works enter remote
      (dispatch 4 exact exact (answers 4 exact exact works) enter remote)
dispatch_lem_example = dispatch_lem 4 exact exact works enter remote
