-- ===== src/Server/Shortcuts/Outcomes.antt =====
-- How requests to create and to delete a shortcut end.
use a6_core.Prelude.{
  String, Bool, Option, none, some, [], ◌∷◌, ◌++◌, ◌≡◌, refl, ◌∙◌, ap, subst, ◌⊎◌, inl, inr, find,
  arith,
}
use a6_core.State.Types.{Shortcut, State}
use a6_core.State.Disk.Crash.{saved}
use a6_core.State.Store.{Store, Updated, done, refused, unsaved, update}
use a6_core.State.Store.Atomicity.{Transacts, update-Transacts}
use a6_core.Shortcuts.{
  ShortcutError, not_saved, Checked, fine, bad, has_id, remove_first, checked_of, append_shortcut,
  new_shortcut, create_checked, create, drop_found, drop, delete,
}
use a6_core.Http.{Request, Response, shortcut, json_error, plain, Env}
use a6_core.Server.Shortcuts.{
  write_shortcut_error, CreateShortcut, decode_create, answer_created, answer_deleted,
  create_decoded, handle_create, handle_delete,
}

-- The state is another one, in memory and in the file.
abbrev pub Becomes : State → Store → Type 0
Becomes st t = (t.state ≡ st) × (t.disk.primary ≡ saved t.state)

module _ (parse : String → Option (String × String)) (exists : String → Bool)
    (fetch : String → Option String) (env : Env) where
  -- The new shortcut passed every check, stands behind the others and is what is answered.
  abbrev pub Created : CreateShortcut → Store → Response × Store → Type 0
  Created req s result =
      (sc : Shortcut) × (new_shortcut parse exists fetch env.new_id req.name req.url req.icon_id
        ≡ fine sc)
      × (result.0 ≡ record { status = 201; answer = shortcut sc })
      × Becomes (record (s.state) { shortcuts = s.state.shortcuts ++ sc ∷ [] }) result.1

  -- the error of a check, or that the state was not saved
  pub data NotCreated (req : CreateShortcut) : ShortcutError → Type 0 where
    unfit :
        (e : ShortcutError)
        → new_shortcut parse exists fetch env.new_id req.name req.url req.icon_id ≡ bad e
        → NotCreated req e
    create_not_saved : NotCreated req not_saved

  abbrev pub CreateRequestEnds : Option CreateShortcut → Store → Response × Store → Type 0
  CreateRequestEnds none s result = result ≡ (json_error 400 "invalid_body", s)
  CreateRequestEnds (some req) s result =
      Created req s result
      ⊎ ((e : ShortcutError) × NotCreated req e
          × (result.0 ≡ write_shortcut_error e)
          × (result.1.state ≡ s.state))

  appended :
      (req : CreateShortcut) (s : Store) (sc : Shortcut)
      (u : Updated ShortcutError (Option Shortcut) × Store)
      → new_shortcut parse exists fetch env.new_id req.name req.url req.icon_id ≡ fine sc
      → Transacts s (append_shortcut parse exists fetch sc s.state) u
      → CreateRequestEnds (some req) s (answer_created (checked_of u))
  appended req s sc (done none, t) c h = absurd (cc (h.0))
  appended req s sc (done (some x), t) c h =
      let same : sc ≡ x = ground arith in
      inl (
        x,
        c ∙ ap fine same,
        refl,
        (
          subst (λ x. t.state ≡ record (s.state) { shortcuts = s.state.shortcuts ++ x ∷ [] }) same
              (ground arith),
          h.1,
        ),
      )
  appended req s sc (refused e, t) c h = absurd (cc (h.0))
  appended req s sc (unsaved e, t) c h = inr (not_saved, create_not_saved, refl, h.0)

  create_checked_lem :
      (req : CreateShortcut) (s : Store) (c : Checked Shortcut)
      → new_shortcut parse exists fetch env.new_id req.name req.url req.icon_id ≡ c
      → CreateRequestEnds
          (some req)
          s
          (answer_created (create_checked parse exists fetch env.faults s c))
  create_checked_lem req s (bad e) c = inr (e, unfit e c, refl, refl)
  create_checked_lem req s (fine sc) c =
      appended req s sc (update (append_shortcut parse exists fetch sc) env.faults s) c
        (update-Transacts (append_shortcut parse exists fetch sc) env.faults s)

  create_decoded_lem :
      (req : Option CreateShortcut) (s : Store)
      → CreateRequestEnds req s (create_decoded parse exists fetch env req s)
  unfolding create
  create_decoded_lem none s = refl
  create_decoded_lem (some req) s =
      create_checked_lem req s
        (new_shortcut parse exists fetch env.new_id req.name req.url req.icon_id) refl

  -- A request to create a shortcut ends in one of two ways. The new shortcut, made of the fields after
  -- every check, stands behind the others in memory and in the state file, the rest of the state is
  -- as it was, and the shortcut is answered with 201. Or the state is as it was, and the answer is that of a
  -- malformed body, of the check that failed, or of a failure to save.
  pub handle_create_lem :
      (r : Request) (s : Store)
      → CreateRequestEnds (decode_create r.body) s (handle_create parse exists fetch env r s)
  unfolding handle_create
  handle_create_lem r s = create_decoded_lem (decode_create r.body) s

-- how a request to delete ends
abbrev pub DeleteRequestEnds : String → Store → Response × Store → Type 0
DeleteRequestEnds id s result =
    ((sc : Shortcut) × (find (has_id id) s.state.shortcuts ≡ some sc)
      × (result.0 ≡ plain 204)
      × Becomes (record (s.state) { shortcuts = remove_first id s.state.shortcuts }) result.1)
    ⊎ ((find (has_id id) s.state.shortcuts ≡ none)
        × (result.0 ≡ json_error 404 "not_found")
        × (result.1.state ≡ s.state))
    ⊎ ((result.0 ≡ json_error 500 "save_failed") × (result.1.state ≡ s.state))

drop_found_lem :
    (id : String) (s : Store) (o : Option Shortcut)
    (u : Updated ShortcutError (Option Unit) × Store)
    → find (has_id id) s.state.shortcuts ≡ o
    → Transacts s (drop_found id s.state o) u
    → DeleteRequestEnds id s (answer_deleted (checked_of u))
unfolding write_shortcut_error
drop_found_lem id s none (done none, t) f h = inr (inl (f, refl, ground arith))
drop_found_lem id s none (done (some x), t) f h = absurd (cc (h.0))
drop_found_lem id s (some sc) (done none, t) f h = absurd (cc (h.0))
drop_found_lem id s (some sc) (done (some x), t) f h = inl (sc, f, refl, (ground arith, h.1))
drop_found_lem id s none (refused e, t) f h = absurd (cc (h.0))
drop_found_lem id s (some sc) (refused e, t) f h = absurd (cc (h.0))
drop_found_lem id s o (unsaved e, t) f h = inr (inr (refl, h.0))

-- A request to delete a shortcut ends in one of three ways: the first shortcut with the id is taken
-- out, in memory and in the state file, and the answer is 204; none has the id, the answer is 404, and the
-- state is as it was; or it could not be saved, the answer is 500, and the state is as it was.
pub handle_delete_lem :
    (env : Env) (r : Request) (s : Store) → DeleteRequestEnds r.path_id s (handle_delete env r s)
unfolding handle_delete delete
handle_delete_lem env r s =
    drop_found_lem r.path_id s (find (has_id r.path_id) s.state.shortcuts)
      (update (drop r.path_id) env.faults s) refl (update-Transacts (drop r.path_id) env.faults s)
