-- ===== src/Servers/Players.antt =====
-- main.go: `runBedrockPlayerPoller`, which asks the game server how many play on it.
use a6_core.Prelude.{
  ℕ, ◌<◌, List, [], ◌∷◌, true, false, ◌⊎◌, inl, inr, Bool-cases, arith, ltb, pos_part, Option, none,
  some, ◌≡◌, ◌≢◌, refl, eqb, ap, take, ◌∙◌, subst, sym, if◌then◌else◌,
}
use mathlib.Core.List.{append-nil}
use a6_core.Slices.{Parsed, parsed, failed, panicked}
use a6_core.BedrockPing.{
  PongError, Status, Exchange, response, no_dial, no_deadline, not_sent, no_response, Pinged,
  status, io_failed, not_parsed, crashed, pinged, parse_pong, ping,
}
use a6_core.BedrockPing.Bounds.{parse_pong_stays_in_range}
use a6_core.Servers.Manager as ServersManager
use a6_core.Servers.Manager.{
  BlockingResource, is_running, stopped, starting, running, stopping, Result, ok, err, Players,
  Server, Runtime, RuntimeMap, busy, blocking, or_idle, get_server, set_players,
}

-- what is shown after a ping; `none` outside is a panic of the program
abbrev pub players_of : Pinged → Option (Option Players)
players_of (status st) = some (some (record { current = st.players; max = st.max_players }))
players_of (io_failed e) = some none
players_of (not_parsed e) = some none
players_of crashed = none

abbrev pub show_players : Option (Option Players) → RuntimeMap → Option RuntimeMap
unfolding set_players
show_players none m = none
show_players (some players) m = some (set_players "minecraft" players m)

abbrev pub poll_found : Exchange → RuntimeMap → Result Server → Option RuntimeMap
unfolding ping
poll_found exchange m (err e) = some m
poll_found exchange m (ok srv) =
    if eqb srv.port 0 then some m else show_players (players_of (ping exchange)) m

-- one tick of the poller; `exchange` is how the calls on the socket end
unfoldable pub poll_players : Exchange → RuntimeMap → Option RuntimeMap
unfolding get_server
poll_players exchange m = poll_found exchange m (get_server "minecraft" m)

-- What is shown is what an answer that can be read says, and nothing where there is none.
abbrev pub Shown : Exchange → Option Players → Type 0
Shown exchange none =
    (bytes : List ℕ) (st : Status)
    → exchange ≡ response bytes
    → parse_pong (take 2048 bytes) ≢ parsed st
Shown exchange (some p) =
    (bytes : List ℕ) × (st : Status) × (exchange ≡ response bytes)
    × (parse_pong (take 2048 bytes) ≡ parsed st)
    × (p.current ≡ st.players)
    × (p.max ≡ st.max_players)

-- what blocks: the server, if it runs and has players, and else nothing
abbrev pub Blocks : ServersManager.Status → Option Players → List BlockingResource → Type 0
Blocks now none bs = bs ≡ []
Blocks now (some p) bs =
    ((now ≡ running)
      × (0 < pos_part p.current)
      × (bs ≡ record { type = "server"; id = "minecraft"; players = p.current } ∷ []))
    ⊎ (((now ≢ running) ⊎ (pos_part p.current ≡ 0)) × (bs ≡ []))

running_lem : (now : ServersManager.Status) → is_running now ≡ true → now ≡ running
running_lem stopped h = absurd (cc h)
running_lem starting h = absurd (cc h)
running_lem running h = refl
running_lem stopping h = absurd (cc h)

down_lem : (now : ServersManager.Status) → is_running now ≡ false → now ≢ running
down_lem now h e = cc (h, ap is_running e)

busy-Blocks :
    (now : ServersManager.Status) (players : Option Players)
    → Blocks now players (busy "minecraft" now players)
busy-Blocks now none = refl
busy-Blocks now (some p) = elim (Bool-cases (is_running now)) [
  | inr down ↦ rw down (inr (inl (down_lem now down), refl))
  | inl up ↦ elim (Bool-cases (ltb 0 (pos_part p.current))) [
    | inl some_on ↦ rw up (rw some_on (inl (running_lem now up, ground (arith, some_on), refl)))
    | inr none_on ↦ rw up (rw none_on (inr (inr (ground (arith, none_on)), refl)))
  ]
]

response_inj : (a b : List ℕ) → response a ≡ response b → a ≡ b
response_inj a b h = cc h

answered_lem :
    (bytes : List ℕ) (read : Parsed PongError Status)
    → parse_pong (take 2048 bytes) ≡ read
    → read ≢ panicked
    → (players : Option Players) × (players_of (pinged read) ≡ some players)
      × Shown (response bytes) players
answered_lem bytes (parsed st) from h = (
  some (record { current = st.players; max = st.max_players }),
  refl,
  (bytes, st, refl, from, refl, refl),
)
answered_lem bytes (failed e) from h = (
  none,
  refl,
  λ other st same read.
      cc (
        subst (λ b. parse_pong (take 2048 b) ≡ failed e) (response_inj bytes other same) from,
        read,
      ),
)
answered_lem bytes panicked from h = absurd (h refl)

ping_lem :
    (exchange : Exchange)
    → (players : Option Players) × (players_of (ping exchange) ≡ some players)
      × Shown exchange players
unfolding ping
ping_lem (response bytes) =
    answered_lem bytes (parse_pong (take 2048 bytes)) refl
      (parse_pong_stays_in_range (take 2048 bytes))
ping_lem no_dial = (none, refl, λ bytes st e read. cc e)
ping_lem no_deadline = (none, refl, λ bytes st e read. cc e)
ping_lem not_sent = (none, refl, λ bytes st e read. cc e)
ping_lem no_response = (none, refl, λ bytes st e read. cc e)

module _ (m : RuntimeMap) (rt : Runtime) (known : m "minecraft" ≡ some rt) where
  -- the map after a poll: what blocks is what the players that are shown make of it, and nothing
  -- else changed
  abbrev pub PollEnds : Option Players → Option RuntimeMap → Type 0
  PollEnds players none = ⊥
  PollEnds players (some t) =
      (t "minecraft" ≡ some (record rt { players = players }))
      × Blocks rt.status players (blocking t)

  shown_lem : (players : Option Players) → PollEnds players (show_players (some players) m)
  unfolding set_players blocking show_players
  shown_lem players = (
    rw known refl,
    subst (Blocks rt.status players) (sym blocked) (busy-Blocks rt.status players),
  )
    where
      set : set_players "minecraft" players m "minecraft" ≡ some (record rt { players = players })
      set = rw known refl

      blocked : blocking (set_players "minecraft" players m) ≡ busy "minecraft" rt.status players
      blocked =
          append-nil _
          ∙ ap (λ (r : Option Runtime). busy "minecraft" (or_idle r).status (or_idle r).players) set

  polled_lem :
      (exchange : Exchange) (players : Option Players)
      → players_of (ping exchange) ≡ some players
      → PollEnds players (poll_players exchange m)
  unfolding poll_players poll_found get_server show_players
  polled_lem exchange players e =
      subst (λ r. PollEnds players (show_players r m)) (sym e) (shown_lem players)

  -- Whatever the game server sends or fails to send, a poll does not panic. It shows the players
  -- that an answer says that can be read, the current ones and the most, or none where there is no
  -- such answer; the status stays. What blocks a change of the mode is then this server, if it
  -- runs and the players shown are at least one, and else nothing.
  pub poll_players_lem :
      (exchange : Exchange)
      → (players : Option Players) × Shown exchange players
        × PollEnds players (poll_players exchange m)
  poll_players_lem exchange =
      let (players, e, shown) = ping_lem exchange in (players, shown, polled_lem exchange players e)
