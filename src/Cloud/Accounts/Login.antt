-- ===== src/Cloud/Accounts/Login.antt =====
-- Login opens a session.
use a6_core.Prelude.{
  String, true, false, Option, none, some, List, [], ◌∷◌, ◌++◌, ◌≡◌, ◌≢◌, refl, subst, ap, ◌∙◌, inl,
  inr, find, any, find-append, find-any, eq_of_test, test_of_ne, ne_of_test, eq_refl, Bool-cases,
  arith,
}
use a6_core.State.Types.{CloudUser, CloudSession}
use a6_core.State.Disk.Calls.{Faults}
use a6_core.State.Disk.Crash.{saved}
use a6_core.State.Store.{Store, Updated, done, refused, unsaved, update, snapshot}
use a6_core.State.Store.Atomicity.{Transacts, update-Transacts}
use a6_core.Cloud.Accounts.{
  CloudError, invalid_credentials, not_saved, Returned, returned, failed, Crypto, Draw, outcome_of,
  has_hash, has_user_id, named, new_session, add_session, login_found, login, user_of,
  validate_session,
}
use a6_core.Cloud.Accounts.Sessions.{validate_by}

module _ (c : Crypto) where
  -- why a login failed, with a token drawn
  pub data LoginFailed (username password : String) (s : Store) : CloudError → Type 0 where
    unknown :
        find (named c username) s.state.cloud_users ≡ none
        → LoginFailed username password s invalid_credentials
    wrong :
        (user : CloudUser)
        → find (named c username) s.state.cloud_users ≡ some user
        → c.verifies user.password_hash password ≡ false
        → LoginFailed username password s invalid_credentials
    login_not_saved : LoginFailed username password s not_saved

  -- A login that was saved: the password is that of the first user with the name, and the token now
  -- stands for a user with its id.
  pub record LoggedIn (username password token : String) (s t : Store) (answer : String × CloudUser)
      : Type 0 where
    pub is_token : answer.0 ≡ token
    pub found : find (named c username) s.state.cloud_users ≡ some answer.1
    pub verified : c.verifies (answer.1).password_hash password ≡ true
    pub opens : (u : CloudUser) × (validate_session c token t ≡ returned u) × (u.id ≡ (answer.1).id)
    pub durable : t.disk.primary ≡ saved t.state

  abbrev pub LoginEnds :
      String → String → String → Store → Returned (String × CloudUser) × Store → Type 0
  LoginEnds username password token s (returned a, t) = LoggedIn username password token s t a
  LoginEnds username password token s (failed e, t) =
      LoginFailed username password s e × (t.state ≡ s.state) × (t.disk.primary ≡ s.disk.primary)

  same_user : (v user : CloudUser) → has_user_id user.id v ≡ false → v ≡ user → ⊥
  same_user v user ne e = ne_of_test v.id user.id ne (ap (λ (x : CloudUser). x.id) e)

  find_user_id :
      (name : String) (users : List CloudUser) (user : CloudUser)
      → find (named c name) users ≡ some user
      → (u : CloudUser) × (find (has_user_id user.id) users ≡ some u) × (u.id ≡ user.id)
  find_user_id name [] user h = absurd (cc h)
  find_user_id name (v ∷ users) user h = elim (Bool-cases (has_user_id user.id v)) [
    | inl e ↦ rw e (v, refl, eq_of_test v.id user.id e)
    | inr ne ↦ elim (Bool-cases (named c name v)) [
      | inl this ↦ absurd (same_user v user ne (ground arith))
      | inr other ↦ rw ne (find_user_id name users user (ground arith))
    ]
  ]

  module _ (draw : Draw) (username password token : String) (s : Store) (user : CloudUser)
      (found : find (named c username) s.state.cloud_users ≡ some user) (nonempty : token ≢ "")
      (fresh : any (has_hash (c.hash token)) s.state.cloud_sessions ≡ false) where
    session : CloudSession
    session = new_session c draw user token

    finds_session :
        (t : Store)
        → t.state ≡ record (s.state) { cloud_sessions = s.state.cloud_sessions ++ session ∷ [] }
        → find (has_hash (c.hash token)) t.state.cloud_sessions ≡ some session
    unfolding session
    finds_session t e =
        ap (λ st. find (has_hash (c.hash token)) st.cloud_sessions) e
        ∙ find-append (has_hash (c.hash token)) s.state.cloud_sessions (session ∷ [])
        ∙ rw (find-any (has_hash (c.hash token)) s.state.cloud_sessions fresh)
            (rw (eq_refl (c.hash token)) refl)

    opened :
        (t : Store)
        → t.state ≡ record (s.state) { cloud_sessions = s.state.cloud_sessions ++ session ∷ [] }
        → (u : CloudUser) × (validate_session c token t ≡ returned u) × (u.id ≡ user.id)
    unfolding session
    opened t e =
        let (u, f, same) = find_user_id username s.state.cloud_users user found in
        (
          u,
          validate_by c token t (some session) (finds_session t e)
              ∙ rw (test_of_ne token "" nonempty)
                  (ap (λ st. user_of (find (has_user_id user.id) st.cloud_users)) e ∙ ap user_of f),
          same,
        )

    logged_in :
        (t : Store)
        → c.verifies user.password_hash password ≡ true
        → t.state ≡ record (s.state) { cloud_sessions = s.state.cloud_sessions ++ session ∷ [] }
        → t.disk.primary ≡ saved t.state
        → LoggedIn username password token s t (token, user)
    logged_in t v e d = record {
      is_token = refl;
      found = found;
      verified = v;
      opens = opened t e;
      durable = d;
    }

    login_saved :
        (u : Updated CloudError (String × CloudUser) × Store)
        → c.verifies user.password_hash password ≡ true
        → Transacts s (add_session token user session s.state) u
        → LoginEnds username password token s (outcome_of u)
    login_saved ((done (x, y)), t) v h =
        subst (λ a. LoggedIn username password token s t a) (ground arith)
          (logged_in t v (ground arith) h.1)
    login_saved (refused e, t) v h = absurd (cc (h.0))
    login_saved (unsaved e, t) v h = (login_not_saved, h.0, h.1)

  login_cases :
      (draw : Draw) (faults : Faults) (username password token : String) (s : Store)
      (o : Option CloudUser)
      → find (named c username) s.state.cloud_users ≡ o
      → token ≢ ""
      → any (has_hash (c.hash token)) s.state.cloud_sessions ≡ false
      → LoginEnds username password token s
          (login_found c (record draw { token = some token }) faults password s o)
  unfolding session
  login_cases draw faults username password token s none f n fresh = (unknown f, refl, refl)
  login_cases draw faults username password token s (some user) f n fresh =
      elim (Bool-cases (c.verifies user.password_hash password)) [
        | inr bad ↦ rw bad (wrong user f bad, refl, refl)
        | inl v ↦ rw v (
            login_saved draw username password token s user f n fresh
              (update (add_session token user (new_session c draw user token)) faults s) v
              (update-Transacts (add_session token user (new_session c draw user token)) faults s))
      ]

  -- A login that draws a token which is not empty and whose hash no session has ends in one of two
  -- ways. It answers the token and the first user with the name, whose password hash verified; then
  -- the token stands for a user with the id of that one, and the session is in the state file. Or it
  -- changes nothing: no user has the name, or the password is wrong, both with the same error, or the
  -- state could not be saved.
  pub login_lem :
      (draw : Draw) (faults : Faults) (username password token : String) (s : Store)
      → token ≢ ""
      → any (has_hash (c.hash token)) s.state.cloud_sessions ≡ false
      → LoginEnds username password token s
          (login c (record draw { token = some token }) faults username password s)
  unfolding login snapshot
  login_lem draw faults username password token s n fresh =
      login_cases draw faults username password token s
        (find (named c username) s.state.cloud_users) refl n fresh
