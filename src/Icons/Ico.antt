-- ===== src/Icons/Ico.antt =====
-- internal/icons/ico.go: a Windows .ico file read byte by byte and turned into a PNG. `encode` is `png.Encode`
-- of the pixels, row by row from the top.
pub mod Bounds
pub mod Roundtrip
use a6_core.Prelude.{
  ℕ, zero, suc, ◌+◌, ◌*◌, ◌/◌, ◌%◌, ◌^◌, ◌-◌, Bool, true, false, not, Option, none, some, List, [],
  ◌∷◌, length, take, ltb, leb, eqb, ◌&&◌, ◌||◌, if◌then◌else◌,
}
use a6_core.Slices.{Parsed, parsed, failed, panicked, ◌>>=◌, index, slice, fail_if}

pub data IcoError : Type 0 where
  too_short not_ico bad_directory out_of_bounds : IcoError
  header_too_short compressed unsupported_depth pixels_truncated not_encoded : IcoError

pub record IcoEntry : Type 0 where
  pub width : ℕ
  pub height : ℕ
  pub size : ℕ
  pub offset : ℕ

-- `color.RGBA`
pub record Pixel : Type 0 where
  pub red : ℕ
  pub green : ℕ
  pub blue : ℕ
  pub alpha : ℕ

abbrev pub Read : Type 0 → Type 0
Read A = Parsed IcoError A

-- `binary.LittleEndian.Uint16(xs[i : i+2])`
abbrev pub uint16 : List ℕ → ℕ → Read ℕ
uint16 xs i = do lo ← index xs i; hi ← index xs (i + 1); parsed (lo + 256 * hi)

-- `binary.LittleEndian.Uint32(xs[i : i+4])`
abbrev pub uint32 : List ℕ → ℕ → Read ℕ
uint32 xs i = do lo ← uint16 xs i; hi ← uint16 xs (i + 2); parsed (lo + 65536 * hi)

-- `xs[from : to]`
abbrev pub slice_to : List ℕ → ℕ → ℕ → Read (List ℕ)
slice_to xs from to = if ltb to from then panicked else slice xs from (to - from)

abbrev pub or_256 : ℕ → ℕ
or_256 n = if eqb n 0 then 256 else n

abbrev pub no_entry : IcoEntry
no_entry = record { width = 0; height = 0; size = 0; offset = 0 }

-- the larger image, the earlier one of two of the same size
abbrev pub larger : IcoEntry → IcoEntry → IcoEntry
larger e best = if ltb (best.width * best.height) (e.width * e.height) then e else best

abbrev pub read_entry : List ℕ → Read IcoEntry
read_entry e = do
  w ← index e 0
  h ← index e 1
  size ← uint32 e 8
  offset ← uint32 e 12
  parsed (record { width = or_256 w; height = or_256 h; size = size; offset = offset })

-- the loop over the directory, with `n` entries left from the `i`-th on
abbrev pub scan : List ℕ → ℕ → ℕ → IcoEntry → Read IcoEntry
scan data_bytes zero i best = parsed best
scan data_bytes (suc n) i best = do
  bytes ← slice data_bytes (6 + i * 16) 16
  e ← read_entry bytes
  scan data_bytes n (suc i) (larger e best)

abbrev pub alpha_of : List ℕ → ℕ → ℕ → Read ℕ
alpha_of data_bytes bytes_per_pixel i =
    if eqb bytes_per_pixel 4 then index data_bytes (i + 3) else parsed 255

abbrev pub pixel_at : List ℕ → ℕ → ℕ → Read Pixel
pixel_at data_bytes bytes_per_pixel i = do
  a ← alpha_of data_bytes bytes_per_pixel i
  r ← index data_bytes (i + 2)
  g ← index data_bytes (i + 1)
  b ← index data_bytes i
  parsed (record { red = r; green = g; blue = b; alpha = a })

-- the loop over a row, with `n` pixels left from the `x`-th on
abbrev pub row_from : List ℕ → ℕ → ℕ → ℕ → ℕ → Read (List Pixel)
row_from data_bytes bytes_per_pixel src_row zero x = parsed []
row_from data_bytes bytes_per_pixel src_row (suc n) x = do
  p ← pixel_at data_bytes bytes_per_pixel (src_row + x * bytes_per_pixel)
  ps ← row_from data_bytes bytes_per_pixel src_row n (suc x)
  parsed (p ∷ ps)

abbrev pub pixels_start : ℕ
pixels_start = 40

abbrev pub row_size : ℕ → ℕ → ℕ
row_size width bytes_per_pixel = (width * bytes_per_pixel + 3) / 4 * 4

-- the loop over the rows from the top: with `suc n` rows left, `height-1-y` is `n`
abbrev pub rows_from : List ℕ → ℕ → ℕ → ℕ → Read (List (List Pixel))
rows_from data_bytes bytes_per_pixel width zero = parsed []
rows_from data_bytes bytes_per_pixel width (suc n) =
    let src_row = pixels_start + n * row_size width bytes_per_pixel in
    do
      _ ← fail_if (ltb (length data_bytes) (src_row + width * bytes_per_pixel)) pixels_truncated
      ps ← row_from data_bytes bytes_per_pixel src_row width 0
      rows ← rows_from data_bytes bytes_per_pixel width n
      parsed (ps ∷ rows)

abbrev pub png_signature : List ℕ
png_signature = 0x89 ∷ 80 ∷ 78 ∷ 71 ∷ 13 ∷ 10 ∷ 0x1a ∷ 10 ∷ []

abbrev same : List ℕ → List ℕ → Bool
same [] [] = true
same (x ∷ xs) (y ∷ ys) = eqb x y && same xs ys
same _ _ = false

abbrev pub is_png : List ℕ → Bool
is_png img = leb 8 (length img) && same (take 8 img) png_signature

module _ (encode : List (List Pixel) → Option (List ℕ)) where
  abbrev pub encoded : List (List Pixel) → Read (List ℕ)
  encoded rows = elim (encode rows) [ none ↦ failed not_encoded | some png ↦ parsed png ]

  -- `decodeDIBToPNG`
  abbrev pub decode_dib_to_png : List ℕ → ℕ → ℕ → Read (List ℕ)
  decode_dib_to_png data_bytes width height = do
    _ ← fail_if (ltb (length data_bytes) 40) header_too_short
    bpp ← uint16 data_bytes 14
    compression ← uint32 data_bytes 16
    _ ← fail_if (not (eqb compression 0)) compressed
    _ ← fail_if (not (eqb bpp 32) && not (eqb bpp 24)) unsupported_depth
    rows ← rows_from data_bytes (bpp / 8) width height
    encoded rows

  -- `decodeICOToPNG`; the end of the entry is counted in 32 bits
  unfoldable pub decode_ico_to_png : List ℕ → Read (List ℕ)
  decode_ico_to_png data_bytes = do
    _ ← fail_if (ltb (length data_bytes) 6) too_short
    reserved ← uint16 data_bytes 0
    type ← uint16 data_bytes 2
    _ ← fail_if (not (eqb reserved 0) || not (eqb type 1)) not_ico
    count ← uint16 data_bytes 4
    _ ← fail_if (eqb count 0 || ltb (length data_bytes) (6 + count * 16)) bad_directory
    best ← scan data_bytes count 0 no_entry
    _ ← fail_if (eqb best.size 0 || ltb (length data_bytes) (best.offset + best.size)) out_of_bounds
    img ← slice_to data_bytes best.offset ((best.offset + best.size) % 2 ^ 32)
    if is_png img then parsed img else decode_dib_to_png img best.width best.height
