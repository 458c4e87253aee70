-- ===== src/Icons.antt =====
-- internal/icons/icons.go and internal/icons/default.go: the files of icons. `detect` is
-- `http.DetectContentType` of the first 512 bytes, and a file is named by the id and its extension.
pub mod Ids
pub mod Storing
pub mod Ico
pub mod Favicon
mod Tests
use a6_core.Prelude.{
  ℕ, ◌*◌, String, Bool, true, false, not, Option, none, some, List, [], ◌∷◌, length, ltb, ◌==◌,
  ◌&&◌, take, if◌then◌else◌,
}
use a6_core.Icons.Ids.{is_icon_id}

abbrev pub Bytes : Type 0
Bytes = List ℕ

abbrev pub max_icon_size : ℕ
max_icon_size = 512 * 1024

pub data IconError : Type 0 where
  invalid_id too_large unsupported_type not_found not_saved not_read : IconError

pub data Checked (A : Type 0) : Type 0 where
  fine : A → Checked A
  bad : IconError → Checked A

-- the directory of icons: the contents by the id and the extension
abbrev pub Files : Type 0
Files = String → String → Option Bytes

abbrev pub put : String → String → Bytes → Files → Files
put id ext content files i e = if i == id && e == ext then some content else files i e

-- `extensionFor`
abbrev pub extension_for : String → Option String
extension_for type =
    if type == "image/png" then some ".png" else if type == "image/jpeg" then some ".jpg" else none

-- an order in which `range extensionFor` may go
pub data Order : Type 0 where
  png_first jpg_first : Order

abbrev pub extensions : Order → List String
extensions png_first = ".png" ∷ ".jpg" ∷ []
extensions jpg_first = ".jpg" ∷ ".png" ∷ []

module _ (detect : Bytes → String) where
  -- `http.DetectContentType(data[:sniffLen])`
  abbrev pub content_type : Bytes → String
  content_type data_bytes = detect (take 512 data_bytes)

  -- `writeFileAtomic` fails or the whole file is there
  abbrev pub write_as : Bool → String → Bytes → Files → Option String → Checked String × Files
  write_as ok id content files none = (bad unsupported_type, files)
  write_as true id content files (some ext) = (fine id, put id ext content files)
  write_as false id content files (some ext) = (bad not_saved, files)

  -- `Save`; `id` is the one that is drawn
  unfoldable pub save : Bool → String → Bytes → Files → Checked String × Files
  save ok id content files =
      if ltb max_icon_size (length content)
      then (bad too_large, files)
      else write_as ok id content files (extension_for (content_type content))

abbrev pub first_there : Files → String → List String → Checked (String × Bytes)
first_there files id [] = bad not_found
first_there files id (ext ∷ exts) =
    let rest = first_there files id exts in
    elim (files id ext) [ none ↦ rest | some content ↦ fine (ext, content) ]

-- `locate`, with what the file holds
unfoldable pub locate : Order → String → Files → Checked (String × Bytes)
locate order id files =
    if is_icon_id id then first_there files id (extensions order) else bad invalid_id

abbrev is_fine : {A : Type 0} → Checked A → Bool
is_fine (fine a) = true
is_fine (bad e) = false

-- `Exists`
unfoldable pub exists : Order → String → Files → Bool
unfolding locate
exists order id files = is_fine (locate order id files)

abbrev pub read_located :
    (Bytes → String) → Bool → Checked (String × Bytes) → Checked (Bytes × String)
read_located detect fault (bad e) = bad e
read_located detect true (fine (ext, content)) = bad not_read
read_located detect false (fine (ext, content)) = fine (content, detect (take 512 content))

-- `Get`; `fault` is whether reading fails
unfoldable pub get : (Bytes → String) → Bool → Order → String → Files → Checked (Bytes × String)
unfolding locate
get detect fault order id files = read_located detect fault (locate order id files)
