-- ===== src/BedrockPing/Bounds.antt =====
-- No answer of a server makes the parser read out of range.
use a6_core.Prelude.{ℕ, ◌+◌, ◌*◌, not, Option, none, some, List, ◌≢◌, length, ltb, eqb, arith}
use a6_core.Prelude.{ℤ}
use a6_core.BedrockPing.Bytes.{atoi, split}
use a6_core.Slices.{
  parsed, failed, panicked, index, slice, IsSafe, parsed-IsSafe, failed-IsSafe, index-IsSafe,
  slice-IsSafe, bind-IsSafe, check-IsSafe,
}
use a6_core.BedrockPing.{
  PongError, number, header_len, too_short, unexpected_id, truncated, too_few_fields, bad_players,
  bad_max_players, parse_fields, parse_pong,
}

number-IsSafe : (text : List ℕ) (e : PongError) → IsSafe (number text e)
number-IsSafe text e = by_number (atoi text)
  where
    by_number : (o : Option ℤ) → IsSafe (elim o [ none ↦ failed e | some n ↦ parsed n ])
    by_number none = failed-IsSafe e
    by_number (some n) = parsed-IsSafe n

parse_fields-IsSafe : (fields : List (List ℕ)) → IsSafe (parse_fields fields)
parse_fields-IsSafe fields = check-IsSafe (ltb (length fields) 6) too_few_fields _ (λ h.
    bind-IsSafe (index fields 4) _ (index-IsSafe fields 4 (ground (arith, h))) (λ field4 _.
      bind-IsSafe (number field4 bad_players) _ (number-IsSafe field4 bad_players) (λ players _.
        bind-IsSafe (index fields 5) _ (index-IsSafe fields 5 (ground (arith, h))) (λ field5 _.
          bind-IsSafe (number field5 bad_max_players) _ (number-IsSafe field5 bad_max_players)
            (λ max_players _.
              bind-IsSafe (index fields 0) _ (index-IsSafe fields 0 (ground (arith, h)))
                (λ edition _.
                  bind-IsSafe (index fields 1) _ (index-IsSafe fields 1 (ground (arith, h)))
                    (λ motd _.
                      bind-IsSafe (index fields 3) _ (index-IsSafe fields 3 (ground (arith, h)))
                        (λ version _. parsed-IsSafe _))))))))

-- Whatever bytes a server sends, the parser answers a status or an error: it takes no byte, no slice and no
-- field out of range.
pub parse_pong_stays_in_range : (resp : List ℕ) → parse_pong resp ≢ panicked
unfolding parse_pong
parse_pong_stays_in_range resp =
    check-IsSafe (ltb (length resp) (header_len + 2)) too_short _ (λ long.
      bind-IsSafe (index resp 0) _ (index-IsSafe resp 0 (ground (arith, long))) (λ id _.
        check-IsSafe (not (eqb id 0x1c)) unexpected_id _ (λ known.
          bind-IsSafe (index resp header_len) _
            (index-IsSafe resp header_len (ground (arith, long)))
            (λ hi _.
              bind-IsSafe (index resp (header_len + 1)) _
                (index-IsSafe resp (header_len + 1) (ground (arith, long)))
                (λ lo _.
                  check-IsSafe (ltb (length resp) (header_len + 2 + (hi * 256 + lo))) truncated _
                    (λ whole.
                      bind-IsSafe (slice resp (header_len + 2) (hi * 256 + lo)) _
                        (slice-IsSafe resp (header_len + 2) (hi * 256 + lo) whole)
                        (λ data_bytes _. parse_fields-IsSafe (split 59 data_bytes))))))))
