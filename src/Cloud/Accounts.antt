-- ===== src/Cloud/Accounts.antt =====
-- internal/cloud/cloud.go: `Register`, `Login`, `Logout` and `ValidateSession`.
pub mod Sessions
pub mod Login
pub mod Names
pub mod Roundtrip
use a6_core.Prelude.{
  ℕ, String, Bool, true, false, not, Option, none, some, List, [], ◌∷◌, ◌++◌, ◌==◌, ltb, any, find,
  keep_if, trim_space, len, if◌then◌else◌, ◌≡◌,
}
use a6_core.State.Types.{CloudUser, CloudSession, State}
use a6_core.State.Disk.Calls.{Faults}
use a6_core.State.Store.{
  Store, Outcome, commit, abort, Updated, done, refused, unsaved, update, snapshot,
}

pub data CloudError : Type 0 where
  empty_username short_password hashing_failed username_taken : CloudError
  invalid_credentials no_token session_invalid : CloudError
  file_not_found not_owner not_stored not_opened not_saved : CloudError

pub data Returned (A : Type 0) : Type 0 where
  returned : A → Returned A
  failed : CloudError → Returned A

-- What the packages `crypto/sha256`, `golang.org/x/crypto/bcrypt` and `strings` are relied on for:
-- `hash` is `hashToken`, `bcrypt` what `GenerateFromPassword` draws for a password, `verifies` whether
-- `CompareHashAndPassword` finds no error, and `same_name` is `EqualFold`.
pub record Crypto : Type 0 where
  pub hash : String → String
  pub bcrypt : String → Option String
  pub verifies : String → String → Bool
  pub same_name : String → String → Bool

-- A drawn hash verifies its password, and `EqualFold` holds of a text and itself.
pub record IsLawful (c : Crypto) : Type 0 where
  pub verifies-bcrypt :
      (password hash : String) → c.bcrypt password ≡ some hash → c.verifies hash password ≡ true
  pub same_name_refl : (name : String) → c.same_name name name ≡ true

-- what one call draws and reads off the clock
pub record Draw : Type 0 where
  pub id : String
  pub token : Option String
  pub now : ℕ

abbrev pub outcome_of : {A : Type 0} → Updated CloudError A × Store → Returned A × Store
outcome_of (done a, s) = (returned a, s)
outcome_of (refused e, s) = (failed e, s)
outcome_of (unsaved e, s) = (failed not_saved, s)

abbrev pub has_hash : String → CloudSession → Bool
has_hash h sess = sess.token_hash == h

abbrev pub has_user_id : String → CloudUser → Bool
has_user_id id u = u.id == id

abbrev pub new_user : Draw → String → String → CloudUser
new_user draw name h = record {
  id = draw.id;
  username = name;
  password_hash = h;
  created_at = draw.now;
}

abbrev pub add_session :
    String → CloudUser → CloudSession → State → Outcome CloudError (String × CloudUser)
add_session token user sess st =
    commit (token, user) (record st { cloud_sessions = st.cloud_sessions ++ sess ∷ [] })

abbrev pub without_sessions : String → State → State
without_sessions target st = record st {
  cloud_sessions = keep_if (λ sess. not (has_hash target sess)) st.cloud_sessions;
}

-- the function given to `Update` by `Logout`
abbrev pub drop_sessions : String → State → Outcome CloudError Unit
drop_sessions target st = commit tt (without_sessions target st)

abbrev pub user_of : Option CloudUser → Returned CloudUser
user_of none = failed session_invalid
user_of (some u) = returned u

abbrev pub session_user : List CloudUser → Option CloudSession → Returned CloudUser
session_user users none = failed session_invalid
session_user users (some sess) = user_of (find (has_user_id sess.user_id) users)

module _ (c : Crypto) where
  abbrev pub named : String → CloudUser → Bool
  named name u = c.same_name u.username name

  -- the function given to `Update` by `Register`
  abbrev pub add_user : CloudUser → State → Outcome CloudError CloudUser
  add_user user st =
      if any (named user.username) st.cloud_users
      then abort username_taken
      else commit user (record st { cloud_users = st.cloud_users ++ user ∷ [] })

  abbrev pub register_hashed :
      Draw → Faults → String → Store → Option String → Returned CloudUser × Store
  register_hashed draw faults name s none = (failed hashing_failed, s)
  register_hashed draw faults name s (some h) =
      outcome_of (update (add_user (new_user draw name h)) faults s)

  abbrev register_trimmed : Draw → Faults → String → String → Store → Returned CloudUser × Store
  register_trimmed draw faults name password s =
      if name == ""
      then (failed empty_username, s)
      else if ltb (len password) 8
      then (failed short_password, s)
      else register_hashed draw faults name s (c.bcrypt password)

  -- `Register`
  unfoldable pub register : Draw → Faults → String → String → Store → Returned CloudUser × Store
  register draw faults username password s =
      register_trimmed draw faults (trim_space username) password s

  abbrev pub new_session : Draw → CloudUser → String → CloudSession
  new_session draw user token = record {
    id = draw.id;
    user_id = user.id;
    token_hash = c.hash token;
    created_at = draw.now;
  }

  abbrev login_token :
      Draw → Faults → CloudUser → Store → Option String → Returned (String × CloudUser) × Store
  login_token draw faults user s none = (failed no_token, s)
  login_token draw faults user s (some token) =
      outcome_of (update (add_session token user (new_session draw user token)) faults s)

  abbrev pub login_found :
      Draw → Faults → String → Store → Option CloudUser → Returned (String × CloudUser) × Store
  login_found draw faults password s none = (failed invalid_credentials, s)
  login_found draw faults password s (some user) =
      if c.verifies user.password_hash password
      then login_token draw faults user s draw.token
      else (failed invalid_credentials, s)

  -- `Login`
  unfoldable pub login :
      Draw → Faults → String → String → Store → Returned (String × CloudUser) × Store
  unfolding snapshot
  login draw faults username password s =
      login_found draw faults password s (find (named username) (snapshot s).cloud_users)

  -- `Logout`
  unfoldable pub logout : Faults → String → Store → Returned Unit × Store
  logout faults token s = outcome_of (update (drop_sessions (c.hash token)) faults s)

  -- `ValidateSession`
  unfoldable pub validate_session : String → Store → Returned CloudUser
  unfolding snapshot
  validate_session token s =
      if token == ""
      then failed session_invalid
      else session_user (snapshot s).cloud_users
          (find (has_hash (c.hash token)) (snapshot s).cloud_sessions)
