-- ===== src/Icons/Storing.antt =====
-- What is saved is served again.
use a6_core.Prelude.{
  ◌≤◌, String, Bool, true, false, Option, none, some, List, [], ◌∷◌, ◌≡◌, refl, ap, ◌∙◌, length,
  ltb, ◌==◌, eq_refl, if_lem, arith, if◌then◌else◌,
}
use a6_core.Icons.{
  Bytes, invalid_id, Checked, fine, bad, Files, put, extension_for, Order, png_first, jpg_first,
  extensions, content_type, write_as, save, first_there, locate, read_located, get, max_icon_size,
}
use a6_core.Icons.Ids.{is_icon_id}

put_same :
    (id ext : String) (content : Bytes) (files : Files)
    → put id ext content files id ext ≡ some content
put_same id ext content files = rw (eq_refl id) (rw (eq_refl ext) refl)

put_other :
    (id ext e : String) (content : Bytes) (files : Files)
    → (e == ext) ≡ false
    → put id ext content files id e ≡ files id e
put_other id ext e content files ne = rw (eq_refl id) (rw ne refl)

-- No icon has the id yet.
abbrev pub IsFree : String → Files → Type 0
IsFree id files = (files id ".png" ≡ none) × (files id ".jpg" ≡ none)

-- Every later request for the id is served the bytes and the type that was found.
abbrev pub Serves : (Bytes → String) → String → Bytes → Files → Type 0
Serves detect id content files =
    (order : Order) → get detect false order id files ≡ fine (content, content_type detect content)

abbrev pub SaveEnds : (Bytes → String) → String → Bytes → Files → Checked String × Files → Type 0
SaveEnds detect id content files (fine i, t) =
    (i ≡ id) × (length content ≤ max_icon_size) × Serves detect id content t
SaveEnds detect id content files (bad e, t) = t ≡ files

module _ (detect : Bytes → String) (id : String) (content : Bytes) (files : Files)
    (valid : is_icon_id id ≡ true) (free : IsFree id files) where
  hit :
      (files : Files) (ext : String) (rest : List String)
      → files id ext ≡ some content
      → first_there files id (ext ∷ rest) ≡ fine (ext, content)
  hit files ext rest h =
      ap (λ o. elim o [ none ↦ first_there files id rest | some c ↦ fine (ext, c) ]) h

  miss :
      (files : Files) (ext : String) (rest : List String)
      → files id ext ≡ none
      → first_there files id (ext ∷ rest) ≡ first_there files id rest
  miss files ext rest h =
      ap (λ o. elim o [ none ↦ first_there files id rest | some c ↦ fine (ext, c) ]) h

  found_png :
      (order : Order)
      → first_there (put id ".png" content files) id (extensions order) ≡ fine (".png", content)
  found_png png_first =
      hit (put id ".png" content files) ".png" (".jpg" ∷ []) (put_same id ".png" content files)
  found_png jpg_first =
      miss (put id ".png" content files) ".jpg" (".png" ∷ [])
        (put_other id ".png" ".jpg" content files refl ∙ free.1)
      ∙ hit (put id ".png" content files) ".png" [] (put_same id ".png" content files)

  found_jpg :
      (order : Order)
      → first_there (put id ".jpg" content files) id (extensions order) ≡ fine (".jpg", content)
  found_jpg jpg_first =
      hit (put id ".jpg" content files) ".jpg" (".png" ∷ []) (put_same id ".jpg" content files)
  found_jpg png_first =
      miss (put id ".jpg" content files) ".png" (".jpg" ∷ [])
        (put_other id ".jpg" ".png" content files refl ∙ free.0)
      ∙ hit (put id ".jpg" content files) ".jpg" [] (put_same id ".jpg" content files)

  serves :
      (t : Files) (ext : String)
      → ((order : Order) → first_there t id (extensions order) ≡ fine (ext, content))
      → Serves detect id content t
  unfolding get locate
  serves t ext h order =
      ap
        (λ b.
          read_located detect false
            (if b then first_there t id (extensions order) else bad invalid_id))
        valid
      ∙ ap (read_located detect false) (h order)

  abbrev Written : Bool → Option String → Type 0
  Written ok ext =
      length content ≤ max_icon_size
      → SaveEnds detect id content files (write_as detect ok id content files ext)

  write_lem : (ok : Bool) → Written ok (extension_for (content_type detect content))
  write_lem ok =
      if_lem (Written ok) (content_type detect content == "image/png") _ _
        (λ _ small. written ok ".png" found_png small)
        (λ _.
          if_lem (Written ok) (content_type detect content == "image/jpeg") _ _
            (λ _ small. written ok ".jpg" found_jpg small) (λ _ small. refl))
    where
      written :
          (ok : Bool) (ext : String)
          → ((order : Order)
              → first_there (put id ext content files) id (extensions order) ≡ fine (ext, content))
          → length content ≤ max_icon_size
          → SaveEnds detect id content files (write_as detect ok id content files (some ext))
      written true ext h small = (refl, small, serves (put id ext content files) ext h)
      written false ext h small = refl

  -- Saving an icon under a drawn id of the right shape, which no icon has, ends in one of two ways. The id is
  -- answered, the icon has at most 512 KB, and from then on its bytes are served for the id, with
  -- the type that they have. Or it fails, and no file changed.
  pub save_lem : (ok : Bool) → SaveEnds detect id content files (save detect ok id content files)
  unfolding save
  save_lem ok =
      if_lem (SaveEnds detect id content files) (ltb max_icon_size (length content)) _ _ (λ _. refl)
        (λ fits. write_lem ok (ground (arith, fits)))
