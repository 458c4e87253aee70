-- ===== src/Server/Apps/Outcomes.antt =====
-- How requests to launch and to close end, and what is published about them.
use a6_core.Prelude.{
  true, false, ◌≢◌, ℕ, String, Bool, Option, none, some, ◌∷◌, ◌≡◌, refl, sym, subst, ◌∙◌, ap, ◌⊎◌,
  inl, inr,
}
use a6_core.Apps.{close_failed, Session, LaunchInput, Apps, Launched, launched, failed, close}
use a6_core.Server.Apps.Validity.{Allows, Refuses}
use a6_core.Apps.Sessions.{Agrees, close_lem}
use a6_core.Http.{
  Body, malformed, launch_request, pair_request, switch_request, force_request, shortcut_request,
  account_request, Request, Response, app_session, json_error, plain,
}
use a6_core.Server.Apps.{
  Desk, Outside, launched_event, closed_event, decode_launch, decode_retro, launch_decoded,
  handle_launch, handle_retro_launch, publish_closed, answer_close, handle_close,
}

-- A new session runs, made of the request as it was checked, and it is what is answered and announced.
pub record AppLaunched (o : Outside) (input : LaunchInput) (d : Desk) (result : Response × Desk)
    : Type 0 where
  pub session : Session
  pub valid : Session
  pub passes : Allows o.read o.store input valid
  pub started : o.launches_ok ≡ true
  pub made : session ≡ record valid { id = o.id; started_at = o.now }
  pub current : result.1.apps.current ≡ some session
  pub answer : result.0 ≡ record { status = 202; answer = app_session o.id }
  pub announced : result.1.published ≡ launched_event session ∷ d.published

-- why a launch failed, with the answer and with what the manager has afterwards
pub data NotLaunched (o : Outside) (input : LaunchInput) (s : Apps) (answer : Response) (t : Apps)
    : Type 0 where
  turned_away :
      (status : ℕ) (code : String)
      → Refuses o.read o.store input status code
      → answer ≡ json_error status code
      → t ≡ s
      → NotLaunched o input s answer t
  still_open :
      (valid : Session)
      → Allows o.read o.store input valid
      → s.current ≢ none
      → o.closes_ok ≡ false
      → answer ≡ json_error 500 "launch_failed"
      → t ≡ s
      → NotLaunched o input s answer t
  not_started :
      (valid : Session)
      → Allows o.read o.store input valid
      → o.launches_ok ≡ false
      → answer ≡ json_error 500 "launch_failed"
      → t.current ≡ none
      → NotLaunched o input s answer t

abbrev pub LaunchRequestEnds : Outside → Option LaunchInput → Desk → Response × Desk → Type 0
LaunchRequestEnds o none d result = result ≡ (json_error 400 "invalid_body", d)
LaunchRequestEnds o (some input) d result =
    AppLaunched o input d result
    ⊎ (NotLaunched o input d.apps result.0 result.1.apps × (result.1.published ≡ d.published))

-- the body of /v1/apps/launch that asks for the game of a body of /v1/retro/launch
abbrev pub as_retro : Body → Body
as_retro malformed = malformed
as_retro (launch_request type shortcut console game) = launch_request "retro" "" console game
as_retro _ = launch_request "retro" "" "" ""

decode_as_retro : (b : Body) → decode_retro b ≡ decode_launch (as_retro b)
decode_as_retro malformed = refl
decode_as_retro (launch_request type shortcut console game) = refl
decode_as_retro (pair_request t n) = refl
decode_as_retro (switch_request t f) = refl
decode_as_retro (force_request f) = refl
decode_as_retro (shortcut_request n u i r) = refl
decode_as_retro (account_request n p) = refl

-- The two doors lead to one room: a request to /v1/retro/launch does, answers and publishes what the
-- request to /v1/apps/launch does that has the type retro and the same console and game.
pub retro_door :
    (o : Outside) (r : Request) (d : Desk)
    → handle_retro_launch o r d ≡ handle_launch o (record r { body = as_retro r.body }) d
unfolding handle_launch handle_retro_launch
retro_door o r d = ap (λ input. launch_decoded o input d) (decode_as_retro r.body)

abbrev AnnouncedClose : Option Session → Desk → Desk → Type 0
AnnouncedClose none d t = t.published ≡ d.published
AnnouncedClose (some before) d t = t.published ≡ closed_event before ∷ d.published

abbrev pub CloseRequestEnds : Desk → Response × Desk → Type 0
CloseRequestEnds d result =
    ((result.0 ≡ plain 202)
      × (result.1.apps.current ≡ none)
      × AnnouncedClose d.apps.current d result.1)
    ⊎ ((result.0 ≡ json_error 500 "close_failed") × (result.1 ≡ d))

publish_closed_lem :
    (before : Option Session) (d : Desk) (t : Apps)
    → (publish_closed before (record d { apps = t })).apps ≡ t
publish_closed_lem none d t = refl
publish_closed_lem (some s) d t = refl

announced :
    (before : Option Session) (d : Desk) (t : Apps)
    → AnnouncedClose before d (publish_closed before (record d { apps = t }))
announced none d t = refl
announced (some s) d t = refl

answer_close_lem :
    (d : Desk) (r : Launched Unit × Apps)
    → Agrees r.1
    → ((r.0 ≡ launched tt) × (r.1.current ≡ none)) ⊎ ((r.0 ≡ failed close_failed) × (r.1 ≡ d.apps))
    → let result = answer_close d.apps.current r d in
      Agrees result.1.apps × CloseRequestEnds d result
answer_close_lem d (launched x, t) a (inl h) =
    let e = publish_closed_lem d.apps.current d t in
    (
      subst Agrees (sym e) a,
      inl (refl, ap (λ (s : Apps). s.current) e ∙ h.1, announced d.apps.current d t),
    )
answer_close_lem d (launched x, t) a (inr h) = absurd (cc (h.0))
answer_close_lem d (failed e, t) a (inl h) = absurd (cc (h.0))
answer_close_lem d (failed e, t) a (inr h) =
    (a, inr (refl, ap (λ apps. record d { apps = apps }) h.1))

-- A request to close keeps the manager's session the one that runs. Either nothing runs afterwards,
-- the answer is 202, and app.closed is published for the session that ran, if one did, and else
-- nothing. Or closing failed, the answer is 500, and nothing changed or was published.
pub handle_close_lem :
    (closes_ok : Bool) (d : Desk)
    → Agrees d.apps
    → let result = handle_close closes_ok d in Agrees result.1.apps × CloseRequestEnds d result
unfolding handle_close
handle_close_lem closes_ok d a =
    let h = close_lem closes_ok d.apps a in answer_close_lem d (close closes_ok d.apps) h.0 h.1
