-- ===== src/Server/Icons/Uploading.antt =====
-- An icon that is uploaded over HTTP is answered again.
use a6_core.Prelude.{String, Bool, true, false, ◌≡◌, refl, ap, subst, sym}
use a6_core.Icons.{
  Bytes, Files, IconError, too_large, unsupported_type, not_found, invalid_id, not_saved, not_read,
  Checked, fine, bad, Order, save, get, content_type,
}
use a6_core.Icons.Ids.{is_icon_id}
use a6_core.Icons.Storing.{IsFree, SaveEnds, save_lem}
use a6_core.Server.Icons.{
  Upload, no_file, unread, bytes, IconAnswer, made, content, failure, write_save_error, type_of,
  ext_of, answer_saved, handle_upload, answer_got, handle_get,
}

module _ (detect : Bytes → String) (id : String) (files : Files) where
  -- an icon was made from this body, under the name that fits its type, and every later request
  -- gets it
  abbrev pub IsMade : Upload → String → String → Files → Type 0
  IsMade no_file i ext t = ⊥
  IsMade unread i ext t = ⊥
  IsMade (bytes body) i ext t =
      (i ≡ id)
      × (ext ≡ ext_of (content_type detect body))
      × ((order : Order)
          → handle_get detect false order i t ≡ content (content_type detect body) body)

  abbrev pub UploadEnds : Upload → IconAnswer × Files → Type 0
  UploadEnds upload (made i ext, t) = IsMade upload i ext t
  UploadEnds upload (content type body, t) = ⊥
  UploadEnds upload (failure status code, t) = t ≡ files

  refused_lem : (body : Bytes) (e : IconError) → UploadEnds (bytes body) (write_save_error e, files)
  refused_lem body too_large = refl
  refused_lem body unsupported_type = refl
  refused_lem body invalid_id = refl
  refused_lem body not_found = refl
  refused_lem body not_saved = refl
  refused_lem body not_read = refl

  answer_saved_lem :
      (ok : Bool) (order : Order) (body : Bytes) (result : Checked String × Files)
      → SaveEnds detect id body files result
      → UploadEnds (bytes body) (answer_saved detect ok id false order result)
  unfolding answer_saved handle_get
  answer_saved_lem ok order body (bad e, t) h =
      subst (λ u. UploadEnds (bytes body) (write_save_error e, u)) (sym h) (refused_lem body e)
  answer_saved_lem ok order body (fine i, t) (same, small, serves) =
      let got : (order : Order)
          → get detect false order i t ≡ fine (body, content_type detect body) =
        subst
          (λ j.
            (order : Order) → get detect false order j t ≡ fine (body, content_type detect body))
          (sym same) serves in
      (same, ap (λ r. ext_of (type_of r)) (got order), λ order. ap answer_got (got order))

  -- An upload under a drawn id of the right shape that no icon has ends in one of two ways. The
  -- icon is made, under the id and with the extension that fits its type, and from then on GET
  -- answers its bytes with that type. Or an error is answered, and no file changed. The icon that
  -- was just saved is taken to be readable.
  pub handle_upload_icon_lem :
      is_icon_id id ≡ true
      → IsFree id files
      → (ok : Bool) (order : Order) (upload : Upload)
      → UploadEnds upload (handle_upload detect ok id false order upload files)
  unfolding handle_upload
  handle_upload_icon_lem valid free ok order no_file = refl
  handle_upload_icon_lem valid free ok order unread = refl
  handle_upload_icon_lem valid free ok order (bytes body) =
      answer_saved_lem ok order body (save detect ok id body files)
        (save_lem detect id body files valid free ok)
