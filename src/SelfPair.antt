-- ===== src/SelfPair.antt =====
-- internal/selfpair/selfpair.go: how the TV shell comes to its device key. What the server answers is an
-- argument, as is how the calls on the file system end.
pub mod Reuse
mod Tests
use a6_core.Prelude.{
  ℕ, String, Bool, true, false, not, Option, none, some, List, [], ◌∷◌, ◌==◌, eqb, trim_space,
  if◌then◌else◌,
}

abbrev device_name : String
device_name = "TV Shell"

-- what `os.ReadFile` answers for the key file
pub data KeyFile : Type 0 where
  missing unreadable : KeyFile
  contents : String → KeyFile

-- the requests that the shell sends
pub data Sent : Type 0 where
  get_info : String → Sent
  post_generate : Sent
  post_pair : String → String → Sent

-- an answer: its status, and the field of its JSON that is read, if it can be decoded
pub record Reply : Type 0 where
  pub status : ℕ
  pub field : Option String

-- the server, as far as the shell meets it; `none` is a request that fails
pub record Core : Type 0 where
  pub info : String → Option ℕ
  pub generate : Option Reply
  pub pair : String → String → Option Reply

pub data PairError : Type 0 where
  no_home empty_key_file stored_key_rejected read_failed : PairError
  generate_failed generate_status generate_undecoded : PairError
  redeem_failed redeem_status redeem_undecoded no_key_returned : PairError
  mkdir_failed write_failed : PairError

pub data Ensured : Type 0 where
  key : String → Ensured
  error : PairError → Ensured

-- the key file, and the requests that were sent, the last one first
pub record Shell : Type 0 where
  pub file : KeyFile
  pub sent : List Sent

abbrev pub send : Sent → Shell → Shell
send r s = record s { sent = r ∷ s.sent }

abbrev pub is_ok : Option ℕ → Bool
is_ok none = false
is_ok (some status) = eqb status 200

-- `validateKey`
abbrev pub validate_key : Core → String → Bool
validate_key core k = is_ok (core.info k)

abbrev pub paired_key : Option String → Ensured
paired_key none = error redeem_undecoded
paired_key (some k) = if k == "" then error no_key_returned else key k

abbrev pub redeemed : Option Reply → Ensured
redeemed none = error redeem_failed
redeemed (some r) = if eqb r.status 200 then paired_key r.field else error redeem_status

abbrev pub redeem : Core → Option String → Shell → Ensured × Shell
redeem core none s = (error generate_undecoded, s)
redeem core (some token) s =
    (redeemed (core.pair token device_name), send (post_pair token device_name) s)

abbrev pub generated : Core → Option Reply → Shell → Ensured × Shell
generated core none s = (error generate_failed, s)
generated core (some r) s =
    let redeemed = redeem core r.field s in
    if eqb r.status 200 then redeemed else (error generate_status, s)

-- `pairFirstTime`
unfoldable pub pair_first_time : Core → Shell → Ensured × Shell
pair_first_time core s = generated core core.generate (send post_generate s)

-- how `os.WriteFile` ends: it wrote the file, failed to open it, or failed when the file held a part
pub data Written : Type 0 where
  whole unopened : Written
  left : String → Written

abbrev pub write_file : Written → String → Shell → Ensured × Shell
write_file whole k s = (key k, record s { file = contents k })
write_file unopened k s = (error write_failed, s)
write_file (left text) k s = (error write_failed, record s { file = contents text })

-- `saveKey`
abbrev pub save_key : Bool → Written → String → Shell → Ensured × Shell
save_key mkdir_ok w k s = if mkdir_ok then write_file w k s else (error mkdir_failed, s)

abbrev pub save_paired : Bool → Written → Ensured × Shell → Ensured × Shell
save_paired mkdir_ok w (error e, s) = (error e, s)
save_paired mkdir_ok w (key k, s) = save_key mkdir_ok w k s

abbrev pub use_stored : Core → String → Shell → Ensured × Shell
use_stored core k s =
    if k == ""
    then (error empty_key_file, s)
    else if validate_key core k
    then (key k, send (get_info k) s)
    else (error stored_key_rejected, send (get_info k) s)

abbrev pub ensure_from : Core → Bool → Written → KeyFile → Shell → Ensured × Shell
ensure_from core mkdir_ok w (contents text) s = use_stored core (trim_space text) s
ensure_from core mkdir_ok w unreadable s = (error read_failed, s)
ensure_from core mkdir_ok w missing s = save_paired mkdir_ok w (pair_first_time core s)

-- `EnsureDeviceKey`; `home_ok` is whether the home directory is known
unfoldable pub ensure_device_key : Core → Bool → Bool → Written → Shell → Ensured × Shell
ensure_device_key core home_ok mkdir_ok w s =
    let ensured = ensure_from core mkdir_ok w s.file s in
    if home_ok then ensured else (error no_home, s)
