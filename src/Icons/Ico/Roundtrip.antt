-- ===== src/Icons/Ico/Roundtrip.antt =====
-- The pixels of an image come back as they were written.
use mathlib.Core.List.{append_assoc}
use a6_core.Prelude.{
  ℕ, zero, suc, ◌+◌, ◌*◌, ◌/◌, ◌%◌, false, Option, some, List, [], ◌∷◌, ◌++◌, ◌≡◌, refl, ap, ◌∙◌,
  sym, subst, All, length, length-append, get_elem?, get_elem?-append, ltb, arith,
}
use a6_core.Slices.{parsed, ◌>>=◌, index}
use a6_core.Icons.Ico.{
  Pixel, IcoError, pixel_at, row_from, pixels_start, row_size, rows_from, encoded,
  decode_dib_to_png,
}

abbrev pub bytes_of : List Pixel → List ℕ
bytes_of [] = []
bytes_of (p ∷ ps) = p.blue ∷ p.green ∷ p.red ∷ p.alpha ∷ bytes_of ps

-- the rows of an image as a bitmap stores them, the lowest first
abbrev pub bottom_up : List (List Pixel) → List ℕ
bottom_up [] = []
bottom_up (row ∷ rows) = bottom_up rows ++ bytes_of row

abbrev zeros : ℕ → List ℕ
zeros zero = []
zeros (suc n) = 0 ∷ zeros n

-- the header of a bitmap of 32 bits per pixel
abbrev pub dib_header : ℕ → ℕ → List ℕ
dib_header width height =
    40
    ∷ 0
    ∷ 0
    ∷ 0
    ∷ width
    ∷ 0
    ∷ 0
    ∷ 0
    ∷ 2 * height % 256
    ∷ 2 * height / 256
    ∷ 0
    ∷ 0
    ∷ 1
    ∷ 0
    ∷ 32
    ∷ 0
    ∷ zeros 24

abbrev pub dib : ℕ → List (List Pixel) → List ℕ → List ℕ
dib width rows mask = dib_header width (length rows) ++ (bottom_up rows ++ mask)

abbrev pub HasWidth : ℕ → List Pixel → Type 0
HasWidth width row = length row ≡ width

length-bytes_of : (ps : List Pixel) → length (bytes_of ps) ≡ length ps * 4
length-bytes_of [] = refl
length-bytes_of (p ∷ ps) = let rest = length-bytes_of ps in omega (arith, rest)

length-bottom_up :
    (width : ℕ) (rows : List (List Pixel))
    → All (HasWidth width) rows
    → length (bottom_up rows) ≡ length rows * (width * 4)
length-bottom_up width [] h = omega arith
length-bottom_up width (row ∷ rows) (r, h) = omega (
  arith,
  length-append (bottom_up rows) (bytes_of row),
  length-bottom_up width rows h,
  length-bytes_of row,
  r,
)

-- a byte behind a known prefix
index_after :
    (pre ys : List ℕ) (n i y : ℕ)
    → length pre ≡ n
    → get_elem? ys i ≡ some y
    → index {E = IcoError} (pre ++ ys) (n + i) ≡ parsed y
index_after pre ys n i y h e =
    let found : get_elem? (pre ++ ys) (n + i) ≡ some y =
      subst (λ k. get_elem? (pre ++ ys) (k + i) ≡ get_elem? ys i) h (get_elem?-append pre ys i)
      ∙ e in
    rw (found, index) refl

pixel_after :
    (pre : List ℕ) (p : Pixel) (ys : List ℕ) (n : ℕ)
    → length pre ≡ n
    → pixel_at (pre ++ (bytes_of (p ∷ []) ++ ys)) 4 n ≡ parsed p
pixel_after pre p ys n h =
    let at : (i y : ℕ)
        → get_elem? (bytes_of (p ∷ []) ++ ys) i ≡ some y
        → index {E = IcoError} (pre ++ (bytes_of (p ∷ []) ++ ys)) (n + i) ≡ parsed y =
      λ i y. index_after pre (bytes_of (p ∷ []) ++ ys) n i y h in
    let blue : index {E = IcoError} (pre ++ (bytes_of (p ∷ []) ++ ys)) n ≡ parsed p.blue =
      subst (λ k. index {E = IcoError} (pre ++ (bytes_of (p ∷ []) ++ ys)) k ≡ parsed p.blue)
        (omega arith) (at 0 p.blue refl) in
    rw (at 3 p.alpha refl, at 2 p.red refl, at 1 p.green refl, blue) refl

row_after :
    (pre : List ℕ) (ps : List Pixel) (rest : List ℕ) (src x : ℕ)
    → length pre ≡ src + x * 4
    → row_from (pre ++ (bytes_of ps ++ rest)) 4 src (length ps) x ≡ parsed ps
row_after pre [] rest src x h = refl
row_after pre (p ∷ ps) rest src x h =
    ap
      (λ m. m >>= (λ q.
        row_from (pre ++ (bytes_of (p ∷ ps) ++ rest)) 4 src (length ps) (suc x)
        >>= (λ qs. parsed (q ∷ qs))))
      (pixel_after pre p (bytes_of ps ++ rest) (src + x * 4) h)
    ∙ ap (λ m. m >>= (λ qs. parsed (p ∷ qs)))
        (subst (λ l. row_from l 4 src (length ps) (suc x) ≡ parsed ps)
          (append_assoc pre (bytes_of (p ∷ [])) (bytes_of ps ++ rest))
          (row_after (pre ++ bytes_of (p ∷ [])) ps rest src (suc x)
            (omega (arith, length-append pre (bytes_of (p ∷ [])), h))))

row_size_lem : (width : ℕ) → row_size width 4 ≡ width * 4
row_size_lem width = omega arith

-- the topmost row of an image
module _ (header : List ℕ) (width : ℕ) (row : List Pixel) (rows : List (List Pixel)) (rest : List ℕ)
    (sized : length header ≡ pixels_start) (r : HasWidth width row)
    (h : All (HasWidth width) rows) where
  abbrev src : ℕ
  src = pixels_start + length rows * row_size width 4

  abbrev file : List ℕ
  file = header ++ (bottom_up (row ∷ rows) ++ rest)

  split : bottom_up rows ++ (bytes_of row ++ rest) ≡ bottom_up (row ∷ rows) ++ rest
  split = sym (append_assoc (bottom_up rows) (bytes_of row) rest)

  starts : length (header ++ bottom_up rows) ≡ src
  starts =
      let full : length rows * row_size width 4 ≡ length rows * (width * 4) =
        ap (λ n. length rows * n) (row_size_lem width) in
      omega
        (arith, length-append header (bottom_up rows), sized, length-bottom_up width rows h, full)

  whole : ltb (length file) (src + width * 4) ≡ false
  whole =
      let l : length file
          ≡ length header + (length (bottom_up rows) + length (bytes_of row) + length rest) =
        omega (
          arith,
          length-append header (bottom_up (row ∷ rows) ++ rest),
          length-append (bottom_up (row ∷ rows)) rest,
          length-append (bottom_up rows) (bytes_of row),
        ) in
      ground (arith, l, starts, length-append header (bottom_up rows), length-bytes_of row, r)

  shape : (header ++ bottom_up rows) ++ (bytes_of row ++ rest) ≡ file
  shape = append_assoc header (bottom_up rows) (bytes_of row ++ rest) ∙ ap (λ l. header ++ l) split

  this : row_from file 4 src width 0 ≡ parsed row
  this =
      subst (λ n. row_from file 4 src n 0 ≡ parsed row) r
        (subst (λ l. row_from l 4 src (length row) 0 ≡ parsed row) shape
          (row_after (header ++ bottom_up rows) row rest src 0 (omega (arith, starts))))

rows_after :
    (header : List ℕ) (width : ℕ) (rows : List (List Pixel)) (rest : List ℕ)
    → length header ≡ pixels_start
    → All (HasWidth width) rows
    → rows_from (header ++ (bottom_up rows ++ rest)) 4 width (length rows) ≡ parsed rows
rows_after header width [] rest sized h = refl
rows_after header width (row ∷ rows) rest sized (r, h) =
    rw
      (
        whole header width row rows rest sized r h,
        this header width row rows rest sized r h,
        subst (λ l. rows_from (header ++ l) 4 width (length rows) ≡ parsed rows)
            (split header width row rows rest sized r h)
            (rows_after header width rows (bytes_of row ++ rest) sized h),
      )
      refl

-- An uncompressed bitmap of 32 bits per pixel, with any mask after it, is decoded to just the
-- pixels that it was written from: the rows in their order from the top, and red, green, blue and
-- alpha in their place.
pub dib_roundtrip :
    (encode : List (List Pixel) → Option (List ℕ)) (width : ℕ) (rows : List (List Pixel))
    (mask : List ℕ)
    → All (HasWidth width) rows
    → decode_dib_to_png encode (dib width rows mask) width (length rows) ≡ encoded encode rows
dib_roundtrip encode width rows mask h =
    let rows_back : rows_from (dib width rows mask) 4 width (length rows) ≡ parsed rows =
      rows_after (dib_header width (length rows)) width rows mask refl h in
    let long : ltb (length (dib width rows mask)) 40 ≡ false =
      ground (arith, length-append (dib_header width (length rows)) (bottom_up rows ++ mask)) in
    rw (long, rows_back) refl
