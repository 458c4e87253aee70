-- ===== src/Auth/Pairing.antt =====
-- internal/auth/pairing.go. The token that `Generate` draws is an argument: `none` when the random
-- source fails.
pub mod SingleUse
mod Tests
use a6_core.Prelude.{
  ℕ, ◌+◌, ◌*◌, String, Bool, true, false, Option, none, some, List, [], ◌∷◌, ltb, ◌==◌,
  if◌then◌else◌,
}

abbrev pub pairing_token_ttl : ℕ
pairing_token_ttl = 15 * 60 * 1000000000

-- `tokens`: a map from a token to its expiry
pub record PairingManager : Type 0 where
  pub tokens : String → Option ℕ

unfoldable pub new_pairing_manager : PairingManager
new_pairing_manager = record { tokens = λ t. none }

abbrev insert : String → ℕ → (String → Option ℕ) → String → Option ℕ
insert token expiry tokens t = if token == t then some expiry else tokens t

abbrev pub delete : String → (String → Option ℕ) → String → Option ℕ
delete token tokens t = if token == t then none else tokens t

-- `Generate`: the map is replaced by one that holds the new token alone
unfoldable pub generate : ℕ → Option String → PairingManager → Option (String × ℕ) × PairingManager
generate now none p = (none, p)
generate now (some token) p =
    let expiry = now + pairing_token_ttl in
    (some (token, expiry), record { tokens = insert token expiry (λ t. none) })

abbrev pub redeem_found : ℕ → String → PairingManager → Option ℕ → Bool × PairingManager
redeem_found now token p none = (false, p)
redeem_found now token p (some expiry) = (ltb now expiry, record { tokens = delete token p.tokens })

-- `Redeem`
unfoldable pub redeem : ℕ → String → PairingManager → Bool × PairingManager
redeem now token p = redeem_found now token p (p.tokens token)

pub data Call : Type 0 where
  generates : ℕ → Option String → Call
  redeems : ℕ → String → Call

-- the answers of `Redeem` in a sequence of calls
unfoldable pub answers : PairingManager → List Call → List Bool
unfolding generate redeem
answers p [] = []
answers p (generates now drawn ∷ calls) = answers (generate now drawn p).1 calls
answers p (redeems now token ∷ calls) = let (ok, p') = redeem now token p in ok ∷ answers p' calls

-- the manager after a sequence of calls
unfoldable pub run : PairingManager → List Call → PairingManager
unfolding generate redeem
run p [] = p
run p (generates now drawn ∷ calls) = run (generate now drawn p).1 calls
run p (redeems now token ∷ calls) = run (redeem now token p).1 calls
