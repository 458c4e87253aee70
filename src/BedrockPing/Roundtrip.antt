-- ===== src/BedrockPing/Roundtrip.antt =====
-- What a server sends is read back, and what arrives cut short is refused.
use a6_core.Prelude.{
  ℕ, ◌+◌, ◌*◌, ◌/◌, ◌%◌, ◌≤◌, ◌<◌, true, false, some, List, [], ◌∷◌, ◌++◌, ◌≡◌, refl, ap, ◌∙◌,
  subst, ◌⊎◌, inl, inr, All, length, length-append, get_elem?, take, drop, get_elem?-append,
  drop-append, take-append, length-take, get_elem?-take, ltb, eqb, Bool-cases, arith,
}
use a6_core.BedrockPing.Bytes.{atoi, split}
use a6_core.Slices.{parsed, failed, index}
use a6_core.BedrockPing.{
  Status, PongError, number, header_len, too_short, truncated, bad_players, bad_max_players,
  parse_fields, parse_pong,
}

-- `strings.Join` with a semicolon
abbrev pub join : List (List ℕ) → List ℕ
join [] = []
join (f ∷ []) = f
join (f ∷ g ∷ fs) = f ++ 59 ∷ join (g ∷ fs)

abbrev pub after_header : List ℕ → List ℕ → List ℕ
after_header text rest = length text / 256 ∷ length text % 256 ∷ (text ++ rest)

-- An Unconnected Pong, with `header` for the time, the id of the server and the magic, and `rest` for
-- what follows the status line.
abbrev pub pong : List ℕ → List ℕ → List ℕ → List ℕ
pong header text rest = 0x1c ∷ (header ++ after_header text rest)

abbrev pub HasNoSemicolon : List ℕ → Type 0
HasNoSemicolon f = All (λ b. eqb b 59 ≡ false) f

split_end : (f : List ℕ) → HasNoSemicolon f → split 59 f ≡ f ∷ []
split_end [] h = refl
split_end (b ∷ f) h = rw (h.0, split_end f h.1) refl

split_at : (f rest : List ℕ) → HasNoSemicolon f → split 59 (f ++ 59 ∷ rest) ≡ f ∷ split 59 rest
split_at [] rest h = refl
split_at (b ∷ f) rest h = rw (h.0, split_at f rest h.1) refl

-- Splitting what was joined gives the fields.
split-join :
    (f : List ℕ) (fs : List (List ℕ))
    → All HasNoSemicolon (f ∷ fs)
    → split 59 (join (f ∷ fs)) ≡ f ∷ fs
split-join f [] h = split_end f h.0
split-join f (g ∷ fs) h = split_at f (join (g ∷ fs)) h.0 ∙ ap (λ l. f ∷ l) (split-join g fs h.1)

-- the first 35 bytes of an answer: its id, and the length of the string
record Header (resp : List ℕ) (hi lo : ℕ) : Type 0 where
  id : index {E = PongError} resp 0 ≡ parsed 0x1c
  high : index {E = PongError} resp header_len ≡ parsed hi
  low : index {E = PongError} resp (header_len + 1) ≡ parsed lo

module _ (resp : List ℕ) (hi lo : ℕ) (h : Header resp hi lo) where
  parses :
      35 + (hi * 256 + lo) ≤ length resp
      → parse_pong resp ≡ parse_fields (split 59 (take (hi * 256 + lo) (drop 35 resp)))
  unfolding parse_pong
  parses long =
      let a : ltb (length resp) 35 ≡ false = ground arith in
      let b : ltb (length resp) (35 + (hi * 256 + lo)) ≡ false = ground arith in
      rw (a, h.id, h.high, h.low, b) refl

  refuses :
      35 ≤ length resp → length resp < 35 + (hi * 256 + lo) → parse_pong resp ≡ failed truncated
  unfolding parse_pong
  refuses long short =
      let a : ltb (length resp) 35 ≡ false = ground arith in
      let b : ltb (length resp) (35 + (hi * 256 + lo)) ≡ true = ground arith in
      rw (a, h.id, h.high, h.low, b) refl

-- indexing by a lookup
index_of :
    {A : Type 0} (xs : List A) (i : ℕ) (x : A)
    → get_elem? xs i ≡ some x
    → index {E = PongError} xs i ≡ parsed x
index_of xs i x h = rw (h, index) refl

module _ (header text : List ℕ) (sized : length header ≡ 32) where
  at_32 :
      (rest : List ℕ) (i : ℕ)
      → get_elem? (header ++ after_header text rest) (32 + i) ≡ get_elem? (after_header text rest) i
  at_32 rest i =
      subst
        (λ n.
          get_elem? (header ++ after_header text rest) (n + i)
          ≡ get_elem? (after_header text rest) i)
        sized (get_elem?-append header (after_header text rest) i)

  pong-Header :
      (rest : List ℕ) → Header (pong header text rest) (length text / 256) (length text % 256)
  pong-Header rest = record {
    id = refl;
    high = index_of (pong header text rest) 33 _ (at_32 rest 0);
    low = index_of (pong header text rest) 34 _ (at_32 rest 1);
  }

  length-pong : (rest : List ℕ) → length (pong header text rest) ≡ 35 + length text + length rest
  length-pong rest =
      omega (arith, length-append header (after_header text rest), length-append text rest, sized)

  drop_35 : (rest : List ℕ) → drop 35 (pong header text rest) ≡ text ++ rest
  drop_35 rest =
      subst (λ n. drop (n + 2) (header ++ after_header text rest) ≡ text ++ rest) sized
        (drop-append header (after_header text rest) 2)

  -- the length of the status line, as the two bytes have it
  two_bytes : length text / 256 * 256 + length text % 256 ≡ length text
  two_bytes = omega arith

  parse_pong-pong :
      (rest : List ℕ) → parse_pong (pong header text rest) ≡ parse_fields (split 59 text)
  parse_pong-pong rest =
      parses (pong header text rest) (length text / 256) (length text % 256) (pong-Header rest)
        (omega (arith, length-pong rest))
      ∙ ap (λ n. parse_fields (split 59 (take n (drop 35 (pong header text rest))))) two_bytes
      ∙ ap (λ l. parse_fields (split 59 (take (length text) l))) (drop_35 rest)
      ∙ ap (λ l. parse_fields (split 59 l)) (take-append text rest)

-- the fields of a status line that a server sends, the first six of which are named
abbrev pub fields_of : Status → List ℕ → List ℕ → List ℕ → List (List ℕ) → List (List ℕ)
fields_of st protocol players max_players more =
    st.edition ∷ st.motd ∷ protocol ∷ st.version ∷ players ∷ max_players ∷ more

parse_fields-fields_of :
    (st : Status) (protocol players max_players : List ℕ) (more : List (List ℕ))
    → atoi players ≡ some st.players
    → atoi max_players ≡ some st.max_players
    → parse_fields (fields_of st protocol players max_players more) ≡ parsed st
parse_fields-fields_of st protocol players max_players more hp hm =
    let six : ltb (length (fields_of st protocol players max_players more)) 6 ≡ false =
      ground arith in
    let p : number players bad_players ≡ parsed st.players = rw (hp, number) refl in
    let m : number max_players bad_max_players ≡ parsed st.max_players = rw (hm, number) refl in
    rw (six, p, m) refl

-- A status line of any fields without semicolons, in which the two counts are numerals, is read back
-- exactly, whatever the rest of the header holds and whatever follows in the datagram.
pub pong_roundtrip :
    (header : List ℕ) (st : Status) (protocol players max_players : List ℕ) (more : List (List ℕ))
    (rest : List ℕ)
    → length header ≡ 32
    → All HasNoSemicolon (fields_of st protocol players max_players more)
    → atoi players ≡ some st.players
    → atoi max_players ≡ some st.max_players
    → parse_pong (pong header (join (fields_of st protocol players max_players more)) rest)
      ≡ parsed st
pong_roundtrip header st protocol players max_players more rest sized clean hp hm =
    parse_pong-pong header (join (fields_of st protocol players max_players more)) sized rest
    ∙ ap parse_fields (
        split-join st.edition (st.motd ∷ protocol ∷ st.version ∷ players ∷ max_players ∷ more)
          clean)
    ∙ parse_fields-fields_of st protocol players max_players more hp hm

refuses_short : (resp : List ℕ) → length resp < 35 → parse_pong resp ≡ failed too_short
unfolding parse_pong
refuses_short resp short = let a : ltb (length resp) 35 ≡ true = ground arith in rw a refl

index_take :
    (resp : List ℕ) (n i x : ℕ)
    → i < n
    → index {E = PongError} resp i ≡ parsed x
    → index {E = PongError} (take n resp) i ≡ parsed x
index_take resp n i x h e = rw (get_elem?-take n i resp h, index) e

-- An answer that arrives cut short, anywhere, is refused as too short or as truncated: never is a part
-- of a status line read as a status.
pub cut_pong_is_refused :
    (header text : List ℕ) (n : ℕ)
    → length header ≡ 32
    → n < length (pong header text [])
    → (parse_pong (take n (pong header text [])) ≡ failed too_short)
      ⊎ (parse_pong (take n (pong header text [])) ≡ failed truncated)
cut_pong_is_refused header text n sized cut = elim (Bool-cases (ltb n 35)) [
  | inl short ↦ inl (refuses_short (take n whole) (ground (arith, short, taken)))
  | inr long ↦ inr (
      refuses (take n whole) (length text / 256) (length text % 256)
        (record {
          id = index_take whole n 0 _ (ground (arith, long)) h.id;
          high = index_take whole n 33 _ (ground (arith, long)) h.high;
          low = index_take whole n 34 _ (ground (arith, long)) h.low;
        })
        (ground (arith, long, taken))
        (omega (arith, taken, cut, length-pong header text sized [], two_bytes header text sized)))
]
  where
    whole : List ℕ
    whole = pong header text []

    h : Header whole (length text / 256) (length text % 256)
    h = pong-Header header text sized []

    taken : length (take n whole) ≡ n
    taken = length-take n whole (omega (arith, cut))
