-- ===== src/Server/GameServers/Outcomes.antt =====
-- How a request to start or to stop a game server ends, on every branch.
use a6_core.Prelude.{
  ap, sym, ◌∙◌, eq_refl, ◌&&◌, if◌then◌else◌, String, ◌≡◌, refl, ◌⊎◌, inl, inr, Bool, true, false,
  Option, none, some, ◌∷◌, arith, Bool-cases,
}
use a6_core.Servers.Manager.{
  Status, stopped, starting, running, stopping, Definition, Runtime, RuntimeMap, find_definition,
  or_idle, assign, with_status, set_status,
}
use a6_core.Servers.Stopping.{
  is_stopped, begin_start, begin_stop, begin_forced_stop, start, stop, force_restart_stop,
  start_defined, stop_defined,
}
use a6_core.Http.{Request, Response, json_error}
use a6_core.Server.GameServers.{
  Api, write_server_error, handle_start, answer_start, forces, handle_stop, answer_stop,
  is_stop_in_progress,
}

-- why a request to stop the server `id`, whose runtime state is `rt`, was turned away
pub data StopRefused (id : String) (force : Bool) (rt : Runtime) (answer : Response) : Type 0 where
  unknown :
      find_definition id ≡ none
      → answer ≡ json_error 404 "server_not_found"
      → StopRefused id force rt answer
  not_up :
      rt.status ≡ stopped → answer ≡ json_error 409 "not_running" → StopRefused id force rt answer
  in_progress :
      rt.stop_running ≡ true
      → force ≡ false
      → answer ≡ json_error 409 "stop_in_progress"
      → StopRefused id force rt answer

-- A stop sequence began, and its server is marked and announced as stopping.
pub record StopBegan (id : String) (force : Bool) (rt : Runtime) (s : Api) (result : Response × Api)
    : Type 0 where
  pub up : is_stopped rt.status ≡ false
  pub free_or_forced : (rt.stop_running ≡ false) ⊎ (force ≡ true)
  pub status : result.0.status ≡ 202
  pub state : result.1 ≡ record {
    runtime = assign id (record rt { status = stopping; stop_running = true }) s.runtime;
    notified = (id, stopping) ∷ s.notified;
    launched = id ∷ s.launched;
  }

abbrev StopEnds : String → Bool → Runtime → Api → Response × Api → Type 0
StopEnds id force rt s result =
    (StopRefused id force rt result.0 × (result.1 ≡ s)) ⊎ StopBegan id force rt s result

is_stopped_lem : (status : Status) → is_stopped status ≡ true → status ≡ stopped
is_stopped_lem stopped h = refl
is_stopped_lem starting h = absurd (ground arith)
is_stopped_lem running h = absurd (ground arith)
is_stopped_lem stopping h = absurd (ground arith)

-- with the server in the catalog
stop_known :
    (d : Definition) (id : String) (force : Bool) (s : Api)
    → let tried = stop_defined begin_stop id s.runtime (some d) in
      StopEnds id force (or_idle (s.runtime id)) s (
        answer_stop id s (
          if is_stop_in_progress tried.0 && force
          then stop_defined begin_forced_stop id tried.1 (some d)
          else tried))
unfolding begin_stop begin_forced_stop write_server_error
stop_known d id force s = elim (Bool-cases (is_stopped (or_idle (s.runtime id)).status)) [
  | inl e ↦ rw e (inl (not_up (is_stopped_lem (or_idle (s.runtime id)).status e) refl, refl))
  | inr e ↦ elim (Bool-cases (or_idle (s.runtime id)).stop_running) [
    | inr free ↦
        rw e (
          rw free (inr (record { up = e; free_or_forced = inl free; status = refl; state = refl })))
    | inl run ↦ elim (Bool-cases force) [
      | inl f ↦ rw e (
          rw run (
            rw f (
              rw e
                (inr (record { up = e; free_or_forced = inr refl; status = refl; state = refl })))))
      | inr f ↦ rw e (rw run (rw f (inl (in_progress run refl refl, refl))))
    ]
  ]
]

stop_cases :
    (id : String) (force : Bool) (s : Api) (o : Option Definition)
    → find_definition id ≡ o
    → let tried = stop_defined begin_stop id s.runtime o in
      StopEnds id force (or_idle (s.runtime id)) s (
        answer_stop id s (
          if is_stop_in_progress tried.0 && force
          then stop_defined begin_forced_stop id tried.1 o
          else tried))
unfolding write_server_error
stop_cases id force s none h = inl (unknown h refl, refl)
stop_cases id force s (some d) h = stop_known d id force s

-- A request to stop a game server ends in one of two ways. It begins a stop sequence, answers 202 and
-- marks and announces the server as stopping; then the server was not stopped, and a stop sequence
-- that was under way had to be overruled by `force`. Or it changes nothing, with 404 for an id that
-- is not in the catalog and 409 for a stopped server and for a stop under way without `force`.
pub handle_stop_lem :
    (r : Request) (s : Api)
    → let result = handle_stop r s in
      let rt = or_idle (s.runtime r.path_id) in
      (StopRefused r.path_id (forces r.body) rt result.0 × (result.1 ≡ s))
      ⊎ StopBegan r.path_id (forces r.body) rt s result
unfolding handle_stop stop force_restart_stop
handle_stop_lem r s = stop_cases r.path_id (forces r.body) s (find_definition r.path_id) refl

-- why a request to start was turned away, and the runtime state that it left
pub data StartRefused (id : String) (runs : Bool) (s : Api) (result : Response × Api) : Type 0 where
  unknown :
      find_definition id ≡ none
      → result ≡ (json_error 404 "server_not_found", s)
      → StartRefused id runs s result
  not_down :
      is_stopped (or_idle (s.runtime id)).status ≡ false
      → result ≡ (json_error 409 "already_running", s)
      → StartRefused id runs s result
  failed :
      (or_idle (s.runtime id)).status ≡ stopped
      → runs ≡ false
      → result.0 ≡ json_error 500 "server_action_failed"
      → or_idle (result.1.runtime id) ≡ or_idle (s.runtime id)
      → result.1.notified ≡ s.notified
      → StartRefused id runs s result

-- The server was stopped, is marked and announced as running, and keeps its players and its mark of a
-- stop sequence.
pub record Started (id : String) (runs : Bool) (s : Api) (result : Response × Api) : Type 0 where
  pub down : (or_idle (s.runtime id)).status ≡ stopped
  pub ran : runs ≡ true
  pub status : result.0.status ≡ 202
  pub state : result.1.runtime id ≡ some (with_status running (or_idle (s.runtime id)))
  pub announced : result.1.notified ≡ (id, running) ∷ s.notified

set_status-assign :
    (id : String) (status : Status) (rt : Runtime) (m : RuntimeMap)
    → set_status id status (assign id rt m) id ≡ some (with_status status rt)
unfolding set_status
set_status-assign id status rt m = rw (eq_refl id) (rw (eq_refl id) refl)

with_same_status : (rt : Runtime) → rt.status ≡ stopped → with_status stopped rt ≡ rt
with_same_status rt h = ap (λ x. with_status x rt) (sym h)

start_cases :
    (id : String) (runs : Bool) (s : Api) (o : Option Definition)
    → find_definition id ≡ o
    → let result = answer_start id s (start_defined id s.runtime runs o) in
      StartRefused id runs s result ⊎ Started id runs s result
unfolding begin_start write_server_error
start_cases id runs s none h = inl (unknown h refl)
start_cases id runs s (some d) h = elim (Bool-cases (is_stopped (or_idle (s.runtime id)).status)) [
  | inr e ↦ rw e (inl (not_down e refl))
  | inl e ↦ elim (Bool-cases runs) [
    | inl r ↦ rw e (
        rw r (
          inr (record {
            down = is_stopped_lem (or_idle (s.runtime id)).status e;
            ran = refl;
            status = refl;
            state =
                set_status-assign id running (with_status starting (or_idle (s.runtime id)))
                  s.runtime;
            announced = refl;
          })))
    | inr r ↦ rw e (
        rw r (
          inl (
            failed (is_stopped_lem (or_idle (s.runtime id)).status e) refl refl
              (ap or_idle (
                  set_status-assign id stopped (with_status starting (or_idle (s.runtime id)))
                    s.runtime)
                ∙ with_same_status (or_idle (s.runtime id))
                    (is_stopped_lem (or_idle (s.runtime id)).status e))
              refl)))
  ]
]

-- A request to start a game server that is not interrupted ends in one of two ways. It runs a stopped
-- server, answers 202 and announces it as running. Or it announces nothing and leaves the runtime
-- state of the server as it was, with 404 for an id that is not in the catalog, 409 for a server that
-- is not stopped and 500 when the executor cannot start it.
pub handle_start_lem :
    (runs : Bool) (r : Request) (s : Api)
    → let result = handle_start runs r s in
      StartRefused r.path_id runs s result ⊎ Started r.path_id runs s result
unfolding handle_start start
handle_start_lem runs r s = start_cases r.path_id runs s (find_definition r.path_id) refl
