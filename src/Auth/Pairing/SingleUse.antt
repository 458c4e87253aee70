-- ===== src/Auth/Pairing/SingleUse.antt =====
-- The pairing manager against its contract: one token is open at a time, and it opens one door.
use a6_core.Prelude.{
  ℕ, ◌+◌, String, ◌≡◌, refl, sym, subst, ◌∙◌, ap, inl, inr, Bool, true, false, Option, none, some,
  List, [], ◌∷◌, arith, ltb, ◌==◌, eq_iff, if◌then◌else◌, Bool-cases,
}
use a6_core.Auth.Pairing.{
  PairingManager, new_pairing_manager, pairing_token_ttl, generate, redeem, redeem_found, Call,
  generates, redeems, answers, run,
}

-- The contract's state: the open token with its expiry, if there is one.
abbrev pub Open : Type 0
Open = Option (String × ℕ)

abbrev opened : ℕ → Option String → Open → Open
opened now none o = o
opened now (some token) o = some (token, now + pairing_token_ttl)

-- The open token is accepted until it expires, and is used up by the attempt; any other attempt is
-- turned away and changes nothing.
abbrev used : ℕ → String → Open → Bool × Open
used now token none = (false, none)
used now token (some (t, expiry)) =
    if t == token then (ltb now expiry, none) else (false, some (t, expiry))

pub contract : Open → List Call → List Bool
contract o [] = []
contract o (generates now drawn ∷ calls) = contract (opened now drawn o) calls
contract o (redeems now token ∷ calls) = let (ok, o') = used now token o in ok ∷ contract o' calls

abbrev expected : Open → String → Option ℕ
expected none j = none
expected (some (t, expiry)) j = if t == j then some expiry else none

-- The map holds the open token and nothing else.
abbrev Holds : Open → PairingManager → Type 0
Holds o p = (j : String) → p.tokens j ≡ expected o j

generate-Holds :
    (now : ℕ) (drawn : Option String) (o : Open) (p : PairingManager)
    → Holds o p
    → Holds (opened now drawn o) (generate now drawn p).1
unfolding generate
generate-Holds now none o p h j = h j
generate-Holds now (some token) o p h j = refl

redeem_lem :
    (now : ℕ) (token : String) (o : Open) (p : PairingManager)
    → Holds o p
    → ((redeem now token p).0 ≡ (used now token o).0)
      × Holds (used now token o).1 (redeem now token p).1
unfolding redeem
redeem_lem now token none p h = (rw (h token, redeem_found), rw (h token, redeem_found) h)
redeem_lem now token (some (t, expiry)) p h = elim (Bool-cases (t == token)) [
  | inl e ↦
      let found : p.tokens token ≡ some expiry = h token ∙ (rw e refl) in
      rw (e, found, redeem_found)
        (refl, λ j. ground (arith, h j, eq_iff t token, eq_iff token j, eq_iff t j))
  | inr e ↦
      let found : p.tokens token ≡ none = h token ∙ (rw e refl) in
      rw (e, found, redeem_found) (refl, h)
]

answers-Holds :
    (o : Open) (p : PairingManager) (calls : List Call)
    → Holds o p
    → answers p calls ≡ contract o calls
unfolding answers contract
answers-Holds o p [] h = refl
answers-Holds o p (generates now drawn ∷ calls) h =
    answers-Holds (opened now drawn o) (generate now drawn p).1 calls
      (generate-Holds now drawn o p h)
answers-Holds o p (redeems now token ∷ calls) h =
    let (same, h') = redeem_lem now token o p h in
    rw same (
      ap (λ rest. (used now token o).0 ∷ rest)
        (answers-Holds (used now token o).1 (redeem now token p).1 calls h'))

-- Over any sequence of calls the manager answers as its contract does: only the token generated
-- last is accepted, only before it expires, and only once; generating a token closes the one
-- before, and an attempt with any other token is turned away without using it up.
pub answers-contract : (calls : List Call) → answers new_pairing_manager calls ≡ contract none calls
unfolding new_pairing_manager
answers-contract calls = answers-Holds none _ calls (λ j. refl)

-- The attempts of a sequence that contains no `Generate`.
abbrev pub attempts : List (ℕ × String) → List Call
attempts [] = []
attempts ((now, token) ∷ calls) = redeems now token ∷ attempts calls

abbrev all_false : List (ℕ × String) → List Bool
all_false [] = []
all_false (x ∷ calls) = false ∷ all_false calls

contract_closed : (calls : List (ℕ × String)) → contract none (attempts calls) ≡ all_false calls
unfolding contract
contract_closed [] = refl
contract_closed (x ∷ calls) = ap (λ rest. false ∷ rest) (contract_closed calls)

used_closes :
    (now : ℕ) (token : String) (o : Open)
    → (used now token o).0 ≡ true
    → (used now token o).1 ≡ none
used_closes now token none h = refl
used_closes now token (some (t, expiry)) h = ground arith

run-Holds :
    (o : Open) (p : PairingManager) (calls : List Call)
    → Holds o p
    → (o' : Open) × Holds o' (run p calls)
unfolding run
run-Holds o p [] h = (o, h)
run-Holds o p (generates now drawn ∷ calls) h =
    run-Holds (opened now drawn o) (generate now drawn p).1 calls (generate-Holds now drawn o p h)
run-Holds o p (redeems now token ∷ calls) h =
    run-Holds (used now token o).1 (redeem now token p).1 calls (redeem_lem now token o p h).1

-- After a token was accepted, at any point of any history, every later attempt with any token
-- fails until a new token is generated.
redeem_closes :
    (history : List Call) (now : ℕ) (token : String) (later : List (ℕ × String))
    → (redeem now token (run new_pairing_manager history)).0 ≡ true
    → answers (redeem now token (run new_pairing_manager history)).1 (attempts later)
      ≡ all_false later
redeem_closes history now token later ok =
    let p = run new_pairing_manager history in
    let (o, h) =
      run-Holds none new_pairing_manager history (unfold new_pairing_manager in λ j. refl) in
    let (same, h') = redeem_lem now token o p h in
    let closed = used_closes now token o (sym same ∙ ok) in
    answers-Holds none (redeem now token p).1 (attempts later)
      (subst (λ x. Holds x (redeem now token p).1) closed h')
    ∙ contract_closed later
