-- ===== src/Input/Tests.antt =====
-- The remote control at concrete inputs.
use a6_core.Prelude.{ℕ, zero, suc, String, true, Option, none, some, [], ◌∷◌, ◌≡◌, refl, arith}
use a6_core.Input.Control.{
  Controller, Manager, new_controller, connects, receives, run, step, control_taken,
}
use a6_core.Input.Eviction.{evicted_still_injects}

abbrev inject : String → Option String
inject m = none

abbrev phone : Controller
phone = record (new_controller "Phone") { reading = true }

abbrev phone_conns : ℕ → Option Controller
phone_conns zero = none
phone_conns (suc zero) = some phone
phone_conns (suc (suc i)) = none

abbrev system : Manager String
system = record { current = some 1; conns = phone_conns; injected = [] }

evicted_still_injects_example :
    let t = run String inject (connects String 2 "Tablet" (some 1)) system in
    (t.current ≡ some 2)
    × (t.conns 1 ≡ some (record phone { send = control_taken "Tablet" ∷ []; closed = true }))
    × ((step String inject (receives 1 "Enter") t).injected ≡ (1, "Enter") ∷ [])
evicted_still_injects_example =
    evicted_still_injects String inject system 1 2 "Tablet" phone "Enter" refl refl refl refl refl
      refl (omega arith)
