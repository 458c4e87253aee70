-- ===== src/BedrockPing.antt =====
-- internal/bedrockping/bedrockping.go: the answer of a Bedrock server read byte by byte. A string is the
-- list of its bytes.
pub mod Bytes
pub mod Bounds
pub mod Roundtrip
mod Tests
use a6_core.Prelude.{
  ℕ, zero, suc, ◌+◌, ◌*◌, ◌/◌, ◌%◌, ◌^◌, ◌++◌, Bool, true, false, Option, none, some, List, [], ◌∷◌,
  length, get_elem?, take, drop, ltb, eqb, not, if◌then◌else◌,
}
use a6_core.Prelude.{ℤ}
use a6_core.Slices.{Parsed, parsed, failed, panicked, ◌>>=◌, index, slice, fail_if}
use a6_core.BedrockPing.Bytes.{atoi, split}

pub record Status : Type 0 where
  pub edition : List ℕ
  pub motd : List ℕ
  pub version : List ℕ
  pub players : ℤ
  pub max_players : ℤ

pub data PongError : Type 0 where
  too_short unexpected_id truncated too_few_fields bad_players bad_max_players : PongError

-- `strconv.Atoi` with its error
abbrev pub number : List ℕ → PongError → Parsed PongError ℤ
number text e = elim (atoi text) [ none ↦ failed e | some n ↦ parsed n ]

abbrev pub header_len : ℕ
header_len = 1 + 8 + 8 + 16

abbrev pub parse_fields : List (List ℕ) → Parsed PongError Status
parse_fields fields = do
  _ ← fail_if (ltb (length fields) 6) too_few_fields
  field4 ← index fields 4
  players ← number field4 bad_players
  field5 ← index fields 5
  max_players ← number field5 bad_max_players
  edition ← index fields 0
  motd ← index fields 1
  version ← index fields 3
  parsed (record {
    edition = edition;
    motd = motd;
    version = version;
    players = players;
    max_players = max_players;
  })

-- `parsePong`
unfoldable pub parse_pong : List ℕ → Parsed PongError Status
parse_pong resp = do
  _ ← fail_if (ltb (length resp) (header_len + 2)) too_short
  id ← index resp 0
  _ ← fail_if (not (eqb id 0x1c)) unexpected_id
  hi ← index resp header_len
  lo ← index resp (header_len + 1)
  str_len ← parsed (hi * 256 + lo)
  _ ← fail_if (ltb (length resp) (header_len + 2 + str_len)) truncated
  data_bytes ← slice resp (header_len + 2) str_len
  parse_fields (split 59 data_bytes)

abbrev magic : List ℕ
magic =
    0x00 ∷ 0xff ∷ 0xff ∷ 0x00 ∷ 0xfe ∷ 0xfe ∷ 0xfe ∷ 0xfe ∷ 0xfd ∷ 0xfd ∷ 0xfd ∷ 0xfd ∷ 0x12 ∷ 0x34
    ∷ 0x56 ∷ 0x78 ∷ []

-- `binary.Write` of the low `8 * n` bits, the highest byte first
abbrev big_endian : ℕ → ℕ → List ℕ
big_endian zero v = []
big_endian (suc n) v = v / 2 ^ (8 * n) % 256 ∷ big_endian n v

-- the datagram that `Ping` sends
unfoldable unconnected_ping : ℕ → ℕ → List ℕ
unconnected_ping now_milli guid = 0x01 ∷ big_endian 8 now_milli ++ magic ++ big_endian 8 guid

-- how the calls of `Ping` on the socket end: one fails, or the server answers
pub data Exchange : Type 0 where
  no_dial no_deadline not_sent no_response : Exchange
  response : List ℕ → Exchange

pub data Pinged : Type 0 where
  status : Status → Pinged
  io_failed : Exchange → Pinged
  not_parsed : PongError → Pinged
  crashed : Pinged

abbrev pub pinged : Parsed PongError Status → Pinged
pinged (parsed st) = status st
pinged (failed e) = not_parsed e
pinged panicked = crashed

-- `Ping`; a read takes at most 2048 bytes of the datagram
unfoldable pub ping : Exchange → Pinged
unfolding parse_pong
ping (response bytes) = pinged (parse_pong (take 2048 bytes))
ping failure = io_failed failure
