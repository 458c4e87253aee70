-- ===== src/Cloud/Accounts/Roundtrip.antt =====
-- Whoever registered can log in.
use a6_core.Prelude.{
  String, true, some, [], ◌∷◌, ◌≡◌, refl, sym, ap, subst, ◌∙◌, ◌⊎◌, inl, inr, find, any,
  find-append, find-any, arith, trim_space,
}
use a6_core.State.Types.{CloudUser}
use a6_core.State.Disk.Calls.{Faults}
use a6_core.State.Store.{Store, Updated, done, refused, unsaved, update, snapshot}
use a6_core.State.Store.Atomicity.{Transacts, update-Transacts}
use a6_core.Cloud.Accounts.{
  CloudError, not_saved, Returned, returned, failed, Crypto, IsLawful, Draw, outcome_of, named,
  register, new_session, add_session, login,
}
use a6_core.Cloud.Accounts.Names.{Registered, RegisterEnds, register_lem}

module _ (c : Crypto) (lawful : IsLawful c) where
  finds_new_user :
      (name password : String) (s t : Store) (user : CloudUser)
      → Registered c name password s t user
      → find (named c user.username) t.state.cloud_users ≡ some user
  finds_new_user name password s t user r =
      ap (λ st. find (named c user.username) st.cloud_users) r.added
      ∙ find-append (named c user.username) s.state.cloud_users (user ∷ [])
      ∙ rw
          (find-any (named c user.username) s.state.cloud_users
            (ap (λ n. any (named c n) s.state.cloud_users) r.has_name ∙ r.free))
          (rw (lawful.same_name_refl user.username) refl)

  abbrev Accepted : String → CloudUser → Returned (String × CloudUser) → Type 0
  Accepted token user r = (r ≡ returned (token, user)) ⊎ (r ≡ failed not_saved)

  session-Accepted :
      (token : String) (user : CloudUser) (draw : Draw) (s : Store)
      (u : Updated CloudError (String × CloudUser) × Store)
      → Transacts s (add_session token user (new_session c draw user token) s.state) u
      → Accepted token user (outcome_of u).0
  session-Accepted token user draw s (done a, t) h =
      let e : (token, user) ≡ a = ground arith in inl (ap returned (sym e))
  session-Accepted token user draw s (refused e, t) h = absurd (cc (h.0))
  session-Accepted token user draw s (unsaved e, t) h = inr refl

  login-Accepted :
      (draw : Draw) (faults : Faults) (token password : String) (t : Store) (user : CloudUser)
      → find (named c user.username) t.state.cloud_users ≡ some user
      → c.verifies user.password_hash password ≡ true
      → Accepted token user
          (login c (record draw { token = some token }) faults user.username password t).0
  unfolding login snapshot
  login-Accepted draw faults token password t user f v = rw f (
      rw v (
        session-Accepted token user draw t
          (update (add_session token user (new_session c draw user token)) faults t)
          (update-Transacts (add_session token user (new_session c draw user token)) faults t)))

  -- After a registration that answered a user, a login with that user's name and the same password
  -- that draws a token answers the token and that user, or could not be saved; it is never turned away
  -- for its name or its password.
  pub register_then_login :
      (draw later : Draw) (faults faults' : Faults) (username password token : String) (s t : Store)
      (user : CloudUser)
      → register c draw faults username password s ≡ (returned user, t)
      → let r =
          (login c (record later { token = some token }) faults' user.username password t).0 in
        (r ≡ returned (token, user)) ⊎ (r ≡ failed not_saved)
  register_then_login draw later faults faults' username password token s t user e =
      let h : Registered c (trim_space username) password s t user =
        subst (RegisterEnds c (trim_space username) password s) e
          (register_lem c draw faults username password s) in
      login-Accepted later faults' token password t user
        (finds_new_user (trim_space username) password s t user h)
        (lawful.verifies-bcrypt password user.password_hash h.hashed)
