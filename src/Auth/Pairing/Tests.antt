-- ===== src/Auth/Pairing/Tests.antt =====
-- Tests of the pairing manager.
use a6_core.Prelude.{◌≡◌, refl, true, false, none, some, List, [], ◌∷◌}
use a6_core.Auth.Pairing.{Call, generates, redeems, answers, redeem, run, new_pairing_manager}
use a6_core.Auth.Pairing.SingleUse.{contract, answers-contract}

abbrev calls : List Call
calls =
    generates 1 (some "A")
    ∷ generates 2 (some "B")
    ∷ redeems 3 "A"
    ∷ redeems 4 "B"
    ∷ redeems 5 "B"
    ∷ generates 6 (some "C")
    ∷ redeems 900000000006 "C"
    ∷ []

-- an older token, the open one, the open one again, and one that has expired
four_attempts : answers new_pairing_manager calls ≡ false ∷ true ∷ false ∷ false ∷ []
unfolding answers new_pairing_manager
four_attempts = refl

answers-contract_example : answers new_pairing_manager calls ≡ contract none calls
answers-contract_example = answers-contract calls

abbrev opened : List Call
opened = generates 1 (some "A") ∷ []

accepted : (redeem 2 "A" (run new_pairing_manager opened)).0 ≡ true
unfolding run new_pairing_manager
accepted = refl
