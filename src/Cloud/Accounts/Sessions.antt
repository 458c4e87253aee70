-- ===== src/Cloud/Accounts/Sessions.antt =====
-- Login opens a session, logout closes it, and neither touches the others.
use a6_core.Prelude.{
  String, true, not, Option, none, ◌==◌, ◌≡◌, ◌≢◌, refl, sym, ap, ◌∙◌, ◌⊎◌, inl, inr, find,
  find-keep_if-not, find-keep_if, eq_of_test, test_of_ne, ne_of_test, Bool-cases, arith,
  if◌then◌else◌,
}
use a6_core.State.Types.{CloudSession}
use a6_core.State.Disk.Calls.{Faults}
use a6_core.State.Disk.Crash.{saved}
use a6_core.State.Store.{Store, Updated, done, refused, unsaved, update, snapshot}
use a6_core.State.Store.Atomicity.{Transacts, update-Transacts}
use a6_core.Cloud.Accounts.{
  CloudError, session_invalid, not_saved, Returned, returned, failed, Crypto, outcome_of, has_hash,
  without_sessions, drop_sessions, logout, session_user, validate_session,
}

module _ (c : Crypto) where
  -- A logout that was saved: its token is dead, every token with another hash does what it did.
  pub record LoggedOut (token : String) (s t : Store) : Type 0 where
    pub dead : validate_session c token t ≡ failed session_invalid
    pub others :
        (other : String)
        → (c.hash other ≡ c.hash token) ⊎ (validate_session c other t ≡ validate_session c other s)
    pub durable : t.disk.primary ≡ saved t.state
    pub users : t.state.cloud_users ≡ s.state.cloud_users
    pub files : t.state.cloud_files ≡ s.state.cloud_files

  pub validate_by :
      (token : String) (s : Store) (o : Option CloudSession)
      → find (has_hash (c.hash token)) s.state.cloud_sessions ≡ o
      → validate_session c token s
        ≡ (if token == "" then failed session_invalid else session_user s.state.cloud_users o)
  unfolding validate_session snapshot
  validate_by token s o h =
      ap (λ x. if token == "" then failed session_invalid else session_user s.state.cloud_users x) h

  validate_as :
      (token : String) (t s : Store)
      → t.state.cloud_users ≡ s.state.cloud_users
      → find (has_hash (c.hash token)) t.state.cloud_sessions
        ≡ find (has_hash (c.hash token)) s.state.cloud_sessions
      → validate_session c token t ≡ validate_session c token s
  unfolding validate_session snapshot
  validate_as token t s u f = rw u (rw f refl)

  dead_session :
      (token : String) (s : Store)
      → find (has_hash (c.hash token)) s.state.cloud_sessions ≡ none
      → validate_session c token s ≡ failed session_invalid
  dead_session token s h = elim (Bool-cases (token == "")) [
    | inl e ↦ validate_by token s none h ∙ rw e refl
    | inr e ↦ validate_by token s none h ∙ rw e refl
  ]

  kept_if_other :
      (token other : String)
      → c.hash other ≢ c.hash token
      → (sess : CloudSession) → has_hash (c.hash other) sess ≡ true
      → not (has_hash (c.hash token) sess) ≡ true
  kept_if_other token other ne sess h = ap not (
      test_of_ne sess.token_hash (c.hash token)
        (λ e. ne (sym (eq_of_test sess.token_hash (c.hash other) h) ∙ e)))

  other_session :
      (token other : String) (s t : Store)
      → t.state ≡ without_sessions (c.hash token) s.state
      → (c.hash other ≡ c.hash token) ⊎ (validate_session c other t ≡ validate_session c other s)
  other_session token other s t e = elim (Bool-cases (c.hash other == c.hash token)) [
    | inl same ↦ inl (eq_of_test (c.hash other) (c.hash token) same)
    | inr ne ↦ inr (
        validate_as other t s (ap (λ st. st.cloud_users) e) (
          ap (λ st. find (has_hash (c.hash other)) st.cloud_sessions) e
          ∙ find-keep_if (has_hash (c.hash other)) (λ sess. not (has_hash (c.hash token) sess))
              s.state.cloud_sessions
              (kept_if_other token other (ne_of_test (c.hash other) (c.hash token) ne))))
  ]

  logged_out :
      (token : String) (s : Store) (t : Store)
      → t.state ≡ without_sessions (c.hash token) s.state
      → t.disk.primary ≡ saved t.state
      → LoggedOut token s t
  logged_out token s t e h = record {
    dead = dead_session token t (
        ap (λ st. find (has_hash (c.hash token)) st.cloud_sessions) e
        ∙ find-keep_if-not (has_hash (c.hash token)) s.state.cloud_sessions);
    others = λ other. other_session token other s t e;
    durable = h;
    users = ap (λ st. st.cloud_users) e;
    files = ap (λ st. st.cloud_files) e;
  }

  -- what a logout does when it could not be saved
  abbrev pub LogoutEnds : String → Store → Returned Unit × Store → Type 0
  LogoutEnds token s (returned x, t) = LoggedOut token s t
  LogoutEnds token s (failed e, t) =
      (e ≡ not_saved) × (t.state ≡ s.state) × (t.disk.primary ≡ s.disk.primary)

  logout_cases :
      (token : String) (s : Store) (u : Updated CloudError Unit × Store)
      → Transacts s (drop_sessions (c.hash token) s.state) u
      → LogoutEnds token s (outcome_of u)
  logout_cases token s (done x, t) h = logged_out token s t (ground arith) h.1
  logout_cases token s (refused e, t) h = absurd (cc (h.0))
  logout_cases token s (unsaved e, t) h = (refl, h.0, h.1)

  -- After a logout that reports success, its token is turned away, every token with another hash is
  -- answered as before, users and files are untouched, and the state file holds that state. A logout
  -- that reports an error could not save, and left the state and the state file as they were.
  pub logout_lem :
      (faults : Faults) (token : String) (s : Store) → LogoutEnds token s (logout c faults token s)
  unfolding logout
  logout_lem faults token s =
      logout_cases token s (update (drop_sessions (c.hash token)) faults s)
        (update-Transacts (drop_sessions (c.hash token)) faults s)
