-- ===== src/BedrockPing/Tests.antt =====
-- Answers of servers at concrete bytes.
use a6_core.Prelude.{ℕ, zero, suc, some, List, [], ◌∷◌, ◌≡◌, refl, length}
use a6_core.Prelude.{pos, negsuc}
use a6_core.BedrockPing.Bytes.{atoi}
use a6_core.Slices.{parsed}
use a6_core.BedrockPing.{Status, parse_pong, unconnected_ping}
use a6_core.BedrockPing.Roundtrip.{join, pong, fields_of, pong_roundtrip}

abbrev zeros : ℕ → List ℕ
zeros zero = []
zeros (suc n) = 0 ∷ zeros n

-- "MCPE", "Home", "1.26", and 3 of 10 players
abbrev home : Status
home = record {
  edition = 77 ∷ 67 ∷ 80 ∷ 69 ∷ [];
  motd = 72 ∷ 111 ∷ 109 ∷ 101 ∷ [];
  version = 49 ∷ 46 ∷ 50 ∷ 54 ∷ [];
  players = pos 3;
  max_players = pos 10;
}

abbrev line : List (List ℕ)
line = fields_of home (56 ∷ []) (51 ∷ []) (49 ∷ 48 ∷ []) ([] ∷ [])

pong_roundtrip_example : parse_pong (pong (zeros 32) (join line) (7 ∷ [])) ≡ parsed home
pong_roundtrip_example =
    pong_roundtrip (zeros 32) home (56 ∷ []) (51 ∷ []) (49 ∷ 48 ∷ []) ([] ∷ []) (7 ∷ []) refl
      (
        (refl, (refl, (refl, (refl, tt)))),
        (
          (refl, (refl, (refl, (refl, tt)))),
          (
            (refl, tt),
            ((refl, (refl, (refl, (refl, tt)))), ((refl, tt), ((refl, (refl, tt)), (tt, tt)))),
          ),
        ),
      )
      refl refl

minus_three : atoi (45 ∷ 51 ∷ []) ≡ some (negsuc 2)
minus_three = refl

-- A count of players below zero is taken as it is.
negative_players :
    parse_pong
      (pong (zeros 32) (join (fields_of home (56 ∷ []) (45 ∷ 51 ∷ []) (49 ∷ 48 ∷ []) [])) [])
    ≡ parsed (record home { players = negsuc 2 })
unfolding parse_pong
negative_players = refl

ping_has_33_bytes : length (unconnected_ping 1 2) ≡ 33
unfolding unconnected_ping
ping_has_33_bytes = refl
