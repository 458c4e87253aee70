-- ===== src/Icons/Ico/Bounds.antt =====
-- No file makes the decoder of icons read out of range.
use native.Mathlib.Nat.{mul-le-mul_right, mod-eq_of_lt}
use a6_core.Prelude.{
  ℕ, zero, suc, ◌+◌, ◌*◌, ◌/◌, ◌%◌, ◌^◌, ◌-◌, ◌<◌, ◌≤◌, Bool, true, false, not, Option, none, some,
  List, [], ◌∷◌, ◌≡◌, ◌≢◌, sym, subst, ◌⊎◌, inl, inr, length, ltb, eqb, if_lem, arith, ◌||◌, ◌&&◌,
  if◌then◌else◌, take, drop, length-take,
}
use a6_core.Slices.{
  Parsed, parsed, failed, panicked, index, slice, IsSafe, parsed-IsSafe, failed-IsSafe,
  index-IsSafe, slice-IsSafe, bind-IsSafe, check-IsSafe,
}
use a6_core.Icons.{max_icon_size}
use a6_core.Icons.Ico.{
  IcoError, out_of_bounds, bad_directory, not_ico, too_short, header_too_short, compressed,
  unsupported_depth, pixels_truncated, not_encoded, IcoEntry, Pixel, uint16, uint32, slice_to,
  read_entry, scan, larger, no_entry, alpha_of, pixel_at, row_from, pixels_start, row_size,
  rows_from, is_png, encoded, decode_dib_to_png, decode_ico_to_png,
}

uint16-IsSafe : (xs : List ℕ) (i : ℕ) → i + 2 ≤ length xs → IsSafe (uint16 xs i)
uint16-IsSafe xs i h = bind-IsSafe (index xs i) _ (index-IsSafe xs i (omega (arith, h))) (λ lo _.
    bind-IsSafe (index xs (i + 1)) _ (index-IsSafe xs (i + 1) (omega (arith, h)))
      (λ hi _. parsed-IsSafe (lo + 256 * hi)))

uint32-IsSafe : (xs : List ℕ) (i : ℕ) → i + 4 ≤ length xs → IsSafe (uint32 xs i)
uint32-IsSafe xs i h = bind-IsSafe (uint16 xs i) _ (uint16-IsSafe xs i (omega (arith, h))) (λ lo _.
    bind-IsSafe (uint16 xs (i + 2)) _ (uint16-IsSafe xs (i + 2) (omega (arith, h)))
      (λ hi _. parsed-IsSafe (lo + 65536 * hi)))

read_entry-IsSafe : (e : List ℕ) → 16 ≤ length e → IsSafe (read_entry e)
read_entry-IsSafe e h = bind-IsSafe (index e 0) _ (index-IsSafe e 0 (omega (arith, h))) (λ w _.
    bind-IsSafe (index e 1) _ (index-IsSafe e 1 (omega (arith, h))) (λ b _.
      bind-IsSafe (uint32 e 8) _ (uint32-IsSafe e 8 (omega (arith, h))) (λ size _.
        bind-IsSafe (uint32 e 12) _ (uint32-IsSafe e 12 h) (λ offset _. parsed-IsSafe _))))

second_of_or : (a b : Bool) → (a || b) ≡ false → b ≡ false
second_of_or true b h = absurd (cc h)
second_of_or false b h = h

room : {A : Type 0} (from n : ℕ) (xs : List A) → from + n ≤ length xs → n ≤ length (drop from xs)
room zero n xs h = omega (arith, h)
room (suc from) n [] h = absurd (omega (arith, h))
room (suc from) n (x ∷ xs) h = room from n xs (omega (arith, h))

-- a slice has the length that was asked for
length-slice :
    {E A : Type 0} (xs : List A) (from n : ℕ) (s : List A)
    → slice {E = E} xs from n ≡ parsed s
    → n ≤ length s
length-slice {E} {A} xs from n s =
    if_lem (λ (m : Parsed E (List A)). m ≡ parsed s → n ≤ length s) (ltb (length xs) (from + n))
      panicked _ (λ _ got. absurd (cc got))
      (λ fits got.
        let whole : length (take n (drop from xs)) ≡ n =
          length-take n (drop from xs) (room from n xs (ground (arith, fits))) in
        let e : length (take n (drop from xs)) ≡ length s = cc got in omega (arith, whole, e))

scan-IsSafe :
    (xs : List ℕ) (n i : ℕ) (best : IcoEntry)
    → 6 + (i + n) * 16 ≤ length xs
    → IsSafe (scan xs n i best)
scan-IsSafe xs zero i best h = parsed-IsSafe best
scan-IsSafe xs (suc n) i best h =
    bind-IsSafe (slice xs (6 + i * 16) 16) _ (slice-IsSafe xs (6 + i * 16) 16 (ground (arith, h)))
      (λ bytes got.
        bind-IsSafe (read_entry bytes) _
          (read_entry-IsSafe bytes (length-slice xs (6 + i * 16) 16 bytes got))
          (λ e _. scan-IsSafe xs n (suc i) (larger e best) (omega (arith, h))))

-- the pixels of one row, of `b` bytes each
module _ (xs : List ℕ) (b : ℕ) (three_or_four : (b ≡ 3) ⊎ (b ≡ 4)) where
  alpha_of-IsSafe : (i : ℕ) → i + b ≤ length xs → IsSafe (alpha_of xs b i)
  alpha_of-IsSafe i h =
      if_lem IsSafe (eqb b 4) (index xs (i + 3)) (parsed 255)
        (λ four. index-IsSafe xs (i + 3) (ground (arith, four, h))) (λ _. parsed-IsSafe 255)

  pixel_at-IsSafe : (i : ℕ) → i + b ≤ length xs → IsSafe (pixel_at xs b i)
  pixel_at-IsSafe i h = bind-IsSafe (alpha_of xs b i) _ (alpha_of-IsSafe i h) (λ a _.
      bind-IsSafe (index xs (i + 2)) _ (index-IsSafe xs (i + 2) two) (λ r _.
        bind-IsSafe (index xs (i + 1)) _ (index-IsSafe xs (i + 1) (omega (arith, two))) (λ g _.
          bind-IsSafe (index xs i) _ (index-IsSafe xs i (omega (arith, two)))
            (λ blue _. parsed-IsSafe _))))
    where
      two : i + 2 < length xs
      two = by_width three_or_four
        where
          by_width : (b ≡ 3) ⊎ (b ≡ 4) → i + 2 < length xs
          by_width (inl three) = omega (arith, three, h)
          by_width (inr four) = omega (arith, four, h)

  row_from-IsSafe :
      (src_row n x : ℕ) → src_row + (x + n) * b ≤ length xs → IsSafe (row_from xs b src_row n x)
  row_from-IsSafe src_row zero x h = parsed-IsSafe []
  row_from-IsSafe src_row (suc n) x h =
      bind-IsSafe (pixel_at xs b (src_row + x * b)) _
        (pixel_at-IsSafe (src_row + x * b) (
          let l : suc x * b ≤ (x + suc n) * b = mul-le-mul_right b (omega arith) in
          omega (arith, h)))
        (λ p _.
          bind-IsSafe (row_from xs b src_row n (suc x)) _
            (row_from-IsSafe src_row n (suc x)
              (subst (λ k. src_row + k * b ≤ length xs) (omega arith) h))
            (λ ps _. parsed-IsSafe (p ∷ ps)))

  rows_from-IsSafe : (width n : ℕ) → IsSafe (rows_from xs b width n)
  rows_from-IsSafe width zero = parsed-IsSafe []
  rows_from-IsSafe width (suc n) =
      check-IsSafe (ltb (length xs) (pixels_start + n * row_size width b + width * b))
        pixels_truncated _
        (λ whole.
          bind-IsSafe (row_from xs b (pixels_start + n * row_size width b) width 0) _
            (row_from-IsSafe (pixels_start + n * row_size width b) width 0 (ground (arith, whole)))
            (λ ps _.
              bind-IsSafe (rows_from xs b width n) _ (rows_from-IsSafe width n)
                (λ rows _. parsed-IsSafe (ps ∷ rows))))

module _ (encode : List (List Pixel) → Option (List ℕ)) where
  encoded-IsSafe : (rows : List (List Pixel)) → IsSafe (encoded encode rows)
  encoded-IsSafe rows = by_png (encode rows)
    where
      by_png :
          (o : Option (List ℕ))
          → IsSafe {E = IcoError} (elim o [ none ↦ failed not_encoded | some png ↦ parsed png ])
      by_png none = failed-IsSafe not_encoded
      by_png (some png) = parsed-IsSafe png

  bytes_per_pixel :
      (bpp : ℕ) → (not (eqb bpp 32) && not (eqb bpp 24)) ≡ false → (bpp / 8 ≡ 3) ⊎ (bpp / 8 ≡ 4)
  bytes_per_pixel bpp known = ground (arith, known)

  decode_dib_to_png-IsSafe :
      (img : List ℕ) (width height : ℕ) → IsSafe (decode_dib_to_png encode img width height)
  decode_dib_to_png-IsSafe img width height =
      check-IsSafe (ltb (length img) 40) header_too_short _ (λ long.
        bind-IsSafe (uint16 img 14) _ (uint16-IsSafe img 14 (ground (arith, long))) (λ bpp _.
          bind-IsSafe (uint32 img 16) _ (uint32-IsSafe img 16 (ground (arith, long))) (λ c _.
            check-IsSafe (not (eqb c 0)) compressed _ (λ _.
              check-IsSafe (not (eqb bpp 32) && not (eqb bpp 24)) unsupported_depth _ (λ known.
                bind-IsSafe (rows_from img (bpp / 8) width height) _
                  (rows_from-IsSafe img (bpp / 8) (bytes_per_pixel bpp known) width height)
                  (λ rows _. encoded-IsSafe rows))))))

  -- the entry is within the file, so that its end does not wrap
  slice_to-IsSafe :
      (xs : List ℕ) (from n : ℕ)
      → length xs ≤ max_icon_size
      → from + n ≤ length xs
      → IsSafe (slice_to xs from ((from + n) % 2 ^ 32))
  slice_to-IsSafe xs from n small within =
      subst (λ to. IsSafe (slice_to xs from to)) (sym (mod-eq_of_lt (omega (arith, small, within))))
        (if_lem IsSafe (ltb (from + n) from) panicked _ (λ e. absurd (ground (arith, e)))
          (λ _. slice-IsSafe xs from (from + n - from) (ground (arith, within))))

  decode_image-IsSafe :
      (img : List ℕ) (best : IcoEntry)
      → IsSafe
          (if is_png img then parsed img else decode_dib_to_png encode img best.width best.height)
  decode_image-IsSafe img best =
      if_lem IsSafe (is_png img) (parsed img) _ (λ _. parsed-IsSafe img)
        (λ _. decode_dib_to_png-IsSafe img best.width best.height)

  -- A file of at most 512 KB, which is all that is fetched, is decoded or refused whatever its
  -- bytes are: none is read out of range, neither in the directory nor in the pixels.
  pub decode_ico_stays_in_range :
      (file : List ℕ) → length file ≤ max_icon_size → decode_ico_to_png encode file ≢ panicked
  unfolding decode_ico_to_png
  decode_ico_stays_in_range file small = check-IsSafe (ltb (length file) 6) too_short _ (λ long.
      bind-IsSafe (uint16 file 0) _ (uint16-IsSafe file 0 (ground (arith, long))) (λ reserved _.
        bind-IsSafe (uint16 file 2) _ (uint16-IsSafe file 2 (ground (arith, long))) (λ type _.
          check-IsSafe (not (eqb reserved 0) || not (eqb type 1)) not_ico _ (λ _.
            bind-IsSafe (uint16 file 4) _ (uint16-IsSafe file 4 (ground (arith, long))) (λ count _.
              check-IsSafe (eqb count 0 || ltb (length file) (6 + count * 16)) bad_directory _
                (λ whole.
                  bind-IsSafe (scan file count 0 no_entry) _
                    (scan-IsSafe file count 0 no_entry (
                      ground (
                        arith,
                        second_of_or (eqb count 0) (ltb (length file) (6 + count * 16)) whole,
                      )))
                    (λ best _.
                      check-IsSafe (eqb best.size 0 || ltb (length file) (best.offset + best.size))
                        out_of_bounds _
                        (λ within.
                          bind-IsSafe
                            (slice_to file best.offset ((best.offset + best.size) % 2 ^ 32)) _
                            (slice_to-IsSafe file best.offset best.size small (
                              ground (
                                arith,
                                second_of_or (eqb best.size 0)
                                    (ltb (length file) (best.offset + best.size)) within,
                              )))
                            (λ img _. decode_image-IsSafe img best)))))))))
