-- ===== src/Cloud/Accounts/Names.antt =====
-- Registration: user names stay distinct, and a new user can log in.
use a6_core.Prelude.{
  String, Bool, true, false, Option, none, some, List, [], ◌∷◌, ◌++◌, ◌==◌, ◌≡◌, ◌<◌, refl, sym, ap,
  subst, ◌∙◌, inl, inr, any, eq_of_test, Bool-cases, arith, ltb, All, All-append, trim_space, len,
  if◌then◌else◌,
}
use a6_core.State.Types.{CloudUser, State}
use a6_core.State.Disk.Calls.{Faults}
use a6_core.State.Disk.Crash.{saved}
use a6_core.State.Store.{Store, Outcome, commit, abort, Updated, done, refused, unsaved, update}
use a6_core.State.Store.Atomicity.{Transacts, update-Transacts}
use a6_core.Cloud.Accounts.{
  CloudError, empty_username, short_password, hashing_failed, username_taken, not_saved, Returned,
  returned, failed, Crypto, Draw, outcome_of, named, add_user, new_user, register_hashed, register,
}

module _ (c : Crypto) where
  -- No user's name is, by case folding, that of a user registered later.
  abbrev pub NamesDiffer : List CloudUser → Type 0
  NamesDiffer [] = Unit
  NamesDiffer (u ∷ us) = All (λ v. c.same_name u.username v.username ≡ false) us × NamesDiffer us

  NamesDiffer-snoc :
      (us : List CloudUser) (user : CloudUser)
      → NamesDiffer us
      → any (named c user.username) us ≡ false
      → NamesDiffer (us ++ user ∷ [])
  NamesDiffer-snoc [] user d h = (tt, tt)
  NamesDiffer-snoc (u ∷ us) user d h = (
    All-append (λ v. c.same_name u.username v.username ≡ false) us (user ∷ []) d.0
        (ground arith, tt),
    NamesDiffer-snoc us user d.1 (ground arith),
  )

  -- why a registration was turned away
  pub data NotRegistered (name password : String) (s : Store) : CloudError → Type 0 where
    no_name : name ≡ "" → NotRegistered name password s empty_username
    too_short : len password < 8 → NotRegistered name password s short_password
    no_hash : c.bcrypt password ≡ none → NotRegistered name password s hashing_failed
    taken :
        any (named c name) s.state.cloud_users ≡ true → NotRegistered name password s username_taken
    user_not_saved : NotRegistered name password s not_saved

  -- A registration that was saved adds one user, at the end, under a name that was free.
  pub record Registered (name password : String) (s t : Store) (user : CloudUser) : Type 0 where
    pub has_name : user.username ≡ name
    pub hashed : c.bcrypt password ≡ some user.password_hash
    pub free : any (named c name) s.state.cloud_users ≡ false
    pub added : t.state ≡ record (s.state) { cloud_users = s.state.cloud_users ++ user ∷ [] }
    pub durable : t.disk.primary ≡ saved t.state

  abbrev pub RegisterEnds : String → String → Store → Returned CloudUser × Store → Type 0
  RegisterEnds name password s (returned u, t) = Registered name password s t u
  RegisterEnds name password s (failed e, t) =
      NotRegistered name password s e × (t.state ≡ s.state) × (t.disk.primary ≡ s.disk.primary)

  register_saved :
      (draw : Draw) (name password h : String) (s : Store) (b : Bool)
      (u : Updated CloudError CloudUser × Store)
      → c.bcrypt password ≡ some h
      → any (named c name) s.state.cloud_users ≡ b
      → let user = new_user draw name h in
        let o : Outcome CloudError CloudUser =
          if b
          then abort username_taken
          else commit user (record (s.state) { cloud_users = s.state.cloud_users ++ user ∷ [] }) in
        Transacts s o u → RegisterEnds name password s (outcome_of u)
  register_saved draw name password h s true (done a, t) bc e moved = absurd (cc (moved.0))
  register_saved draw name password h s true (refused x, t) bc e moved =
      let same : username_taken ≡ x = ground arith in
      subst (λ x. RegisterEnds name password s (failed x, t)) same
        (taken e, ap (λ (x : Store). x.state) moved.1, ap (λ (x : Store). x.disk.primary) moved.1)
  register_saved draw name password h s false (done a, t) bc e moved =
      let same : new_user draw name h ≡ a = ground arith in
      subst (λ a. RegisterEnds name password s (returned a, t)) same
        (record { has_name = refl; hashed = bc; free = e; added = ground arith; durable = moved.1 })
  register_saved draw name password h s false (refused x, t) bc e moved = absurd (cc (moved.0))
  register_saved draw name password h s b (unsaved e, t) bc eq moved =
      (user_not_saved, moved.0, moved.1)

  register_hashed-Ends :
      (draw : Draw) (faults : Faults) (name password : String) (s : Store) (o : Option String)
      → c.bcrypt password ≡ o
      → RegisterEnds name password s (register_hashed c draw faults name s o)
  register_hashed-Ends draw faults name password s none b = (no_hash b, refl, refl)
  register_hashed-Ends draw faults name password s (some h) b =
      register_saved draw name password h s (any (named c name) s.state.cloud_users)
        (update (add_user c (new_user draw name h)) faults s) b refl
        (update-Transacts (add_user c (new_user draw name h)) faults s)

  -- A registration ends in one of two ways. It adds one user at the end, under the trimmed name, which
  -- no user had by case folding, with a drawn hash of the password, in memory and in the state file. Or
  -- it changes nothing: the trimmed name is empty, the password has fewer than eight bytes or could not
  -- be hashed, the name is taken, or the state could not be saved.
  pub register_lem :
      (draw : Draw) (faults : Faults) (username password : String) (s : Store)
      → RegisterEnds (trim_space username) password s (register c draw faults username password s)
  unfolding register
  register_lem draw faults username password s = elim (Bool-cases (trim_space username == "")) [
    | inl e ↦ rw e (no_name (eq_of_test (trim_space username) "" e), refl, refl)
    | inr e ↦ rw e (elim (Bool-cases (ltb (len password) 8)) [
      | inl short ↦ rw short (too_short (ground arith), refl, refl)
      | inr long ↦ rw long (
          register_hashed-Ends draw faults (trim_space username) password s (c.bcrypt password)
            refl)
    ])
  ]

  ends-NamesDiffer :
      (name password : String) (s : Store) (r : Returned CloudUser × Store)
      → RegisterEnds name password s r
      → NamesDiffer s.state.cloud_users
      → NamesDiffer r.1.state.cloud_users
  ends-NamesDiffer name password s (failed e, t) h d =
      subst (λ (x : State). NamesDiffer x.cloud_users) (sym h.1) d
  ends-NamesDiffer name password s (returned u, t) h d =
      subst (λ (x : State). NamesDiffer x.cloud_users) (sym h.added)
        (NamesDiffer-snoc s.state.cloud_users u d
          (ap (λ n. any (named c n) s.state.cloud_users) h.has_name ∙ h.free))

  -- Whatever is registered, no user's name is, by case folding, that of a user registered later.
  pub register-NamesDiffer :
      (draw : Draw) (faults : Faults) (username password : String) (s : Store)
      → NamesDiffer s.state.cloud_users
      → NamesDiffer (register c draw faults username password s).1.state.cloud_users
  register-NamesDiffer draw faults username password s d =
      ends-NamesDiffer (trim_space username) password s (register c draw faults username password s)
        (register_lem draw faults username password s) d
