-- ===== src/Server/Modes/Checker.antt =====
-- main.go: the checker that it hands to the mode manager, and what it guards.
use a6_core.Prelude.{pos_part}
use a6_core.Prelude.{
  String, Bool, false, Option, none, some, List, [], ◌∷◌, ◌++◌, ◌≡◌, ◌≢◌, refl, ap, inl, inr, arith,
  All, Bool-cases,
}
use a6_core.Servers.Manager.{
  Status, stopped, starting, running, stopping, Definition, catalog, Players, Runtime, RuntimeMap,
  or_idle, is_running, busy, blocking_from, BlockingResource,
}
use a6_core.Servers.Manager as ServersManager
use a6_core.Apps.{Apps, Session, blocks}
use a6_core.Apps as ForegroundApps
use a6_core.Http.{Request, Response, Env}
use a6_core.Server.App.{App}
use a6_core.Server.Modes.{handle_modes_post, decode_switch}
use a6_core.State.Disk.Calls.{Faults}
use a6_core.Server.Modes.Outcomes.{ModeEnds, handle_modes_post_lem}

-- `combinedChecker`
unfoldable pub combined_checker : Apps → RuntimeMap → List BlockingResource
combined_checker apps servers = ForegroundApps.blocking apps ++ ServersManager.blocking servers

-- why nobody is in the way on a server
pub data IsIdle (rt : Runtime) : Type 0 where
  not_up : is_running rt.status ≡ false → IsIdle rt
  unknown_players : rt.players ≡ none → IsIdle rt
  no_players : (p : Players) → rt.players ≡ some p → pos_part p.current ≡ 0 → IsIdle rt

append_nil : (xs ys : List BlockingResource) → xs ++ ys ≡ [] → (xs ≡ []) × (ys ≡ [])
append_nil [] ys h = (refl, h)
append_nil (x ∷ xs) ys h = absurd (cc h)

blocks_nil : (o : Option Session) → blocks o ≡ [] → o ≡ none
blocks_nil none h = refl
blocks_nil (some c) h = absurd (cc h)

busy-IsIdle :
    (id : String) (rt : Runtime) (o : Option Players)
    → rt.players ≡ o
    → busy id rt.status o ≡ []
    → IsIdle rt
busy-IsIdle id rt none e h = unknown_players e
busy-IsIdle id rt (some p) e h = elim (Bool-cases (is_running rt.status)) [
  | inr down ↦ not_up down
  | inl up ↦ no_players p e (ground arith)
]

blocking_from-IsIdle :
    (m : RuntimeMap) (ds : List Definition)
    → blocking_from m ds ≡ []
    → All (λ d. IsIdle (or_idle (m d.id))) ds
blocking_from-IsIdle m [] h = tt
blocking_from-IsIdle m (d ∷ ds) h =
    let rt = or_idle (m d.id) in
    let (a, b) = append_nil (busy d.id rt.status rt.players) (blocking_from m ds) h in
    (busy-IsIdle d.id rt rt.players refl a, blocking_from-IsIdle m ds b)

-- Nothing runs in the foreground, and no server of the catalog is known to have players.
abbrev pub AllIdle : Apps → RuntimeMap → Type 0
AllIdle apps servers = (apps.current ≡ none) × All (λ d. IsIdle (or_idle (servers d.id))) catalog

checker_nil :
    (apps : Apps) (servers : RuntimeMap) → combined_checker apps servers ≡ [] → AllIdle apps servers
unfolding combined_checker ForegroundApps.blocking ServersManager.blocking
checker_nil apps servers h =
    let (a, b) = append_nil (blocks apps.current) (blocking_from servers catalog) h in
    (blocks_nil apps.current a, blocking_from-IsIdle servers catalog b)

changed-AllIdle :
    (apps : Apps) (servers : RuntimeMap) (obeys : Bool) (faults : Faults) (s : App)
    (target : String) (b : Option (String × Bool)) (result : Response × App)
    → ModeEnds (combined_checker apps servers) obeys faults s b result
    → b ≡ some (target, false)
    → result.1.store.state ≢ s.store.state
    → AllIdle apps servers
changed-AllIdle apps servers obeys faults s target b result (inl h) e ne = absurd (ne h.1)
changed-AllIdle apps servers obeys faults s target b result (inr (t, f, eb, inl kept)) e ne =
    absurd (ne (ap (λ (x : App). x.store.state) kept.app))
changed-AllIdle apps servers obeys faults s target b result (inr (t, f, eb, inr changed)) e ne =
    elim changed.free_or_forced [
      | inl free ↦ checker_nil apps servers free
      | inr forced ↦ absurd (cc (forced, eb, e))
    ]

-- A request that does not force it changes the state only while nothing runs in the foreground and no
-- running server is known to have players.
pub unforced_switch_needs_idle :
    (apps : Apps) (servers : RuntimeMap) (obeys : Bool) (env : Env) (r : Request) (s : App)
    (target : String)
    → decode_switch r.body ≡ some (target, false)
    → (handle_modes_post (combined_checker apps servers) obeys env r s).1.store.state
      ≢ s.store.state
    → AllIdle apps servers
unforced_switch_needs_idle apps servers obeys env r s target e ne =
    changed-AllIdle apps servers obeys env.faults s target (decode_switch r.body)
      (handle_modes_post (combined_checker apps servers) obeys env r s)
      (handle_modes_post_lem (combined_checker apps servers) obeys env r s) e ne
