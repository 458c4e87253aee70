-- ===== src/Server/System/Actions.antt =====
-- Who reboots the machine and who shuts it down.
use a6_core.Prelude.{
  find, String, List, [], ◌∷◌, some, ◌≡◌, ◌≢◌, refl, ap, sym, subst, ◌⊎◌, inl, inr, true,
}
use a6_core.Cloud.Accounts.{Crypto}
use a6_core.Auth.Middleware.Gates.{RunsFor}
use a6_core.Http.{
  Method, get, head, post, put, delete, other_method, Request, Response, plain, Env, Context,
  Handler,
}
use a6_core.Server.Routes.{
  device, primary, Endpoint, reboot, shutdown, Route, any_method, routes, fits, guard, serve_found,
  serve,
}
use a6_core.Server.Routes.Authority.{Denied, guard_lem}
use a6_core.Server.System as System
use a6_core.Server.System.{
  SystemAct, power_off, ActResult, Machine, machine_store, ask, answer_act, answered, handle_action,
  handle_reboot, handle_shutdown,
}

-- The request asked the executor once, and is answered what it did; or it is no POST.
abbrev pub Acts : SystemAct → ActResult → Request → Machine → Response × Machine → Type 0
Acts act result r m out =
    ((r.method ≡ post) × (out.0 ≡ answer_act result) × (out.1 ≡ ask act m))
    ⊎ ((r.method ≢ post) × (out ≡ (plain 405, m)))

action_lem :
    (act : SystemAct) (result : ActResult) (r : Request) (m : Machine) (method : Method)
    → r.method ≡ method
    → Acts act result r m (handle_action (λ force m. (result, ask act m)) r method m)
unfolding handle_action
action_lem act result r m post h = inl (h, refl, refl)
action_lem act result r m get h = inr (λ p. cc (h, p), refl)
action_lem act result r m head h = inr (λ p. cc (h, p), refl)
action_lem act result r m put h = inr (λ p. cc (h, p), refl)
action_lem act result r m delete h = inr (λ p. cc (h, p), refl)
action_lem act result r m other_method h = inr (λ p. cc (h, p), refl)

-- the handlers of the two actions, among those of the rest
abbrev pub endpoints : ActResult → (Endpoint → Handler Machine) → Endpoint → Handler Machine
endpoints result rest reboot = handle_reboot result
endpoints result rest shutdown = handle_shutdown result
endpoints result rest e = rest e

abbrev pub reboot_path : List String
reboot_path = "v1" ∷ "system" ∷ "reboot" ∷ []

abbrev pub shutdown_path : List String
shutdown_path = "v1" ∷ "system" ∷ "shutdown" ∷ []

reboot_route :
    (m : Method) → find (fits m reboot_path) routes ≡ some (any_method reboot_path device reboot)
reboot_route get = refl
reboot_route head = refl
reboot_route post = refl
reboot_route put = refl
reboot_route delete = refl
reboot_route other_method = refl

shutdown_route :
    (m : Method)
    → find (fits m shutdown_path) routes ≡ some (any_method shutdown_path primary shutdown)
shutdown_route get = refl
shutdown_route head = refl
shutdown_route post = refl
shutdown_route put = refl
shutdown_route delete = refl
shutdown_route other_method = refl

module _ (hash : String → String) (c : Crypto) (result : ActResult)
    (rest : Endpoint → Handler Machine) (env : Env) (ctx : Context) (r : Request)
    (m : Machine) where
  -- It ran for a paired device, on a machine in which at most times of last use changed.
  abbrev pub RunsAct : SystemAct → (next : Handler Machine) → Response × Machine → Type 0
  RunsAct act next out =
      (run : RunsFor machine_store hash next env ctx r m out) × Acts act result r
        (machine_store.with_store m run.store) out

  abbrev pub serves : List String → Response × Machine
  serves path = serve machine_store hash c (endpoints result rest) path env ctx r m

  serves_found :
      (path : List String) (t : Route)
      → find (fits r.method path) routes ≡ some t
      → serves path
        ≡ guard machine_store hash c t.gate (endpoints result rest t.endpoint) env ctx r m
  unfolding serve
  serves_found path t h =
      ap (serve_found machine_store hash c (endpoints result rest) path env ctx r m) h

  runs_reboot :
      (out : Response × Machine)
      → RunsFor machine_store hash (handle_reboot result) env ctx r m out
      → RunsAct System.reboot (handle_reboot result) out
  unfolding handle_reboot
  runs_reboot out run = (
    run,
    subst (Acts System.reboot result r (machine_store.with_store m run.store)) (sym run.runs)
        (action_lem System.reboot result r (machine_store.with_store m run.store) r.method refl),
  )

  runs_shutdown :
      (out : Response × Machine)
      → (run : RunsFor machine_store hash (handle_shutdown result) env ctx r m out)
        × (run.device.is_primary ≡ true)
      → (h : RunsAct power_off (handle_shutdown result) out) × ((h.0).device.is_primary ≡ true)
  unfolding handle_shutdown
  runs_shutdown out (run, leads) = (
    (
      run,
      subst (Acts power_off result r (machine_store.with_store m run.store)) (sym run.runs)
          (action_lem power_off result r (machine_store.with_store m run.store) r.method refl),
    ),
    leads,
  )

  abbrev pub RebootEnds : Response × Machine → Type 0
  RebootEnds out =
      Denied machine_store hash c m out ⊎ RunsAct System.reboot (handle_reboot result) out

  abbrev pub ShutdownEnds : Response × Machine → Type 0
  ShutdownEnds out =
      Denied machine_store hash c m out
      ⊎ ((h : RunsAct power_off (handle_shutdown result) out) × ((h.0).device.is_primary ≡ true))

  -- At /v1/system/reboot and at /v1/system/shutdown a POST with the key of a paired device, which for the
  -- shutdown has to be a primary one, asks the executor for just that, once, and is answered 202,
  -- 409 or 500 after what it did; with another method it is answered 405 and asks nothing. Any other request is
  -- answered an error, asks nothing, and changes at most times of last use.
  pub system_actions_lem : RebootEnds (serves reboot_path) × ShutdownEnds (serves shutdown_path)
  system_actions_lem = (
    subst RebootEnds (sym (serves_found reboot_path _ (reboot_route r.method)))
        (elim (guard_lem machine_store hash c device (handle_reboot result) env ctx r m) [
          | inl denied ↦ inl denied
          | inr run ↦ inr (runs_reboot _ run)
        ]),
    subst ShutdownEnds (sym (serves_found shutdown_path _ (shutdown_route r.method)))
        (elim (guard_lem machine_store hash c primary (handle_shutdown result) env ctx r m) [
          | inl denied ↦ inl denied
          | inr granted ↦ inr (runs_shutdown _ granted)
        ]),
  )
