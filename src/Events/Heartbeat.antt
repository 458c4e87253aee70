-- ===== src/Events/Heartbeat.antt =====
-- The heartbeat closes a client that does not answer.
use a6_core.Prelude.{
  ℕ, suc, String, ◌+◌, ◌*◌, ◌<◌, ◌≤◌, Bool, true, false, Option, none, some, List, [], ◌∷◌, ◌≡◌,
  refl, ◌∙◌, ◌⊎◌, inl, inr, length, ltb, map, any, All, if_lem, Bool-cases, arith,
}
use a6_core.State.Types.{Device}
use a6_core.Auth.Device.{extract_device_key}
use a6_core.Events.{
  Event, Client, Hub, close_client, enqueue, is_client, broadcast, is_stale, ping_or_mark,
  close_marked, ping, publish, check_heartbeats, accept,
}
use a6_core.Events.Moves.{
  Move, connects, starts, publishes, heartbeat, reads, writes, leaves, ends_loop, ends_closed, step,
  run,
}
use a6_core.Events.Clientwise.{Kept, Allows, enqueue-Kept, run-Kept, step-Kept}
use a6_core.Events.Delivery.{OtherThan}

-- the client with this pointer is closed
abbrev pub IsClosed : ℕ → Client → Type 0
IsClosed id c = c.id ≡ id → c.closed ≡ true

-- it is closed, or its last pong was at `t` at the latest
abbrev pub IsSilent : ℕ → ℕ → Client → Type 0
IsSilent id t c = c.id ≡ id → (c.closed ≡ true) ⊎ (c.last_pong ≤ t)

close_client-closed : (c : Client) → (close_client c).closed ≡ true
close_client-closed c = if_lem (λ (x : Client). x.closed ≡ true) c.closed c _ (λ e. e) (λ _. refl)

IsClosed-Kept :
    (validate : String → Option Device) (id : ℕ)
    → Kept validate (OtherThan id) (OtherThan id) (IsClosed id)
IsClosed-Kept validate id = record {
  joined = λ i d now key v j e. absurd (j e);
  started = λ c p e. p e;
  queued = λ msg c r p e. p e;
  ponged = λ now c j p e. p e;
  taken = λ msg rest c r p e. p e;
  dropped = λ msg rest c r p e. close_client-closed (record c { send = rest });
  closed = λ c p e. close_client-closed c;
}

IsSilent-Kept :
    (validate : String → Option Device) (id t : ℕ)
    → Kept validate (OtherThan id) (OtherThan id) (IsSilent id t)
IsSilent-Kept validate id t = record {
  joined = λ i d now key v j e. absurd (j e);
  started = λ c p e. p e;
  queued = λ msg c r p e. p e;
  ponged = λ now c j p e. absurd (j e);
  taken = λ msg rest c r p e. p e;
  dropped = λ msg rest c r p e. inl (close_client-closed (record c { send = rest }));
  closed = λ c p e. inl (close_client-closed c);
}

not_stale :
    (marshal : Event → Option String) (id t now stale_after : ℕ) (c : Client)
    → t + stale_after < now
    → is_stale marshal now stale_after c ≡ false
    → IsSilent id t c
    → IsClosed id c
not_stale marshal id t now stale_after c late f p e = elim (p e) [
  | inl closed ↦ closed
  | inr pong ↦ absurd (ground (arith, late, f, pong))
]

-- A heartbeat later than `stale_after` since the last pong closes the client.
heartbeat-IsClosed :
    (marshal : Event → Option String) (id t now stale_after : ℕ) (cs : List Client)
    → t + stale_after < now
    → All (IsSilent id t) cs
    → All (IsClosed id) (map (close_marked marshal) (map (ping_or_mark marshal now stale_after) cs))
heartbeat-IsClosed marshal id t now stale_after [] late a = tt
heartbeat-IsClosed marshal id t now stale_after (c ∷ cs) late a = (
  if_lem (λ m. IsClosed id (close_marked marshal m)) (is_stale marshal now stale_after c) (true, c)
      (false, enqueue (ping marshal) c) (λ _ e. close_client-closed c)
      (λ f.
        enqueue-Kept (IsClosed-Kept (λ _. none) id) (ping marshal) c
          (not_stale marshal id t now stale_after c late f a.0)),
  heartbeat-IsClosed marshal id t now stale_after cs late a.1,
)

one_round_less : {t : ℕ} (now n p : ℕ) → t < now + suc n * p → t < (now + p) + n * p
one_round_less now n p h = omega (arith, h)

-- The intervals are what they were when the hub was made.
abbrev SameSettings : Hub → Hub → Type 0
SameSettings h t = (t.ping_every ≡ h.ping_every) × (t.stale_after ≡ h.stale_after)

broadcast-SameSettings :
    (marshal : Event → Option String) (msg : Option String) (h : Hub)
    → SameSettings h (broadcast marshal msg h)
broadcast-SameSettings marshal none h = (refl, refl)
broadcast-SameSettings marshal (some msg) h = (refl, refl)

accept-SameSettings :
    (id now : ℕ) (upgrades : Bool) (d : Option Device) (h : Hub)
    → SameSettings h (accept id now upgrades d h).1
accept-SameSettings id now upgrades none h = (refl, refl)
accept-SameSettings id now false (some d) h = (refl, refl)
accept-SameSettings id now true (some d) h = (refl, refl)

module _ (marshal : Event → Option String) (event_of : String → Option String)
    (validate : String → Option Device) where
  step-SameSettings : (m : Move) (h : Hub) → SameSettings h (step marshal event_of validate m h)
  unfolding step publish check_heartbeats
  step-SameSettings (connects id now upgrades r) h =
      if_lem (SameSettings h) (any (is_client id) h.clients) h _ (λ _. (refl, refl))
        (λ _. accept-SameSettings id now upgrades (validate (extract_device_key r)) h)
  step-SameSettings (starts id) h = (refl, refl)
  step-SameSettings (publishes e) h = broadcast-SameSettings marshal (marshal e) h
  step-SameSettings (heartbeat now) h = (refl, refl)
  step-SameSettings (reads id now frame) h = (refl, refl)
  step-SameSettings (writes id ok) h =
      if_lem (SameSettings h) (any (ends_loop ok id) h.clients) (record h { clients = _ })
        (record h { clients = _ }) (λ _. (refl, refl)) (λ _. (refl, refl))
  step-SameSettings (leaves id) h =
      if_lem (SameSettings h) (any (ends_closed id) h.clients) (record h { clients = _ }) h
        (λ _. (refl, refl)) (λ _. (refl, refl))

  run-SameSettings :
      (moves : List Move) (h : Hub) → SameSettings h (run marshal event_of validate moves h)
  unfolding run
  run-SameSettings [] h = (refl, refl)
  run-SameSettings (m ∷ moves) h =
      let a = step-SameSettings m h in
      let b = run-SameSettings moves (step marshal event_of validate m h) in (b.0 ∙ a.0, b.1 ∙ a.1)

  -- The goroutines do the moves of each round, and then the ticker fires, `ping_every` after the last time.
  unfoldable pub run_rounds : ℕ → List (List Move) → Hub → Hub
  unfolding step run
  run_rounds now [] h = h
  run_rounds now (moves ∷ rounds) h = run_rounds (now + h.ping_every) rounds (
      step marshal event_of validate (heartbeat (now + h.ping_every))
        (run marshal event_of validate moves h))

  -- no pong of the client is read, and no new client gets its pointer
  abbrev pub Quiet : ℕ → List (List Move) → Type 0
  Quiet id rounds = All (All (Allows (OtherThan id) (OtherThan id) event_of)) rounds

  stays-IsClosed :
      (id now : ℕ) (rounds : List (List Move)) (h : Hub)
      → Quiet id rounds
      → All (IsClosed id) h.clients
      → All (IsClosed id) (run_rounds now rounds h).clients
  unfolding run_rounds
  stays-IsClosed id now [] h j a = a
  stays-IsClosed id now (moves ∷ rounds) h j a =
      let b = run-Kept (IsClosed-Kept validate id) marshal event_of moves h j.0 a in
      stays-IsClosed id (now + h.ping_every) rounds _ j.1 (
        step-Kept (IsClosed-Kept validate id) marshal event_of (heartbeat (now + h.ping_every))
          (run marshal event_of validate moves h) tt b)

  rounds_close :
      (id t now : ℕ) (rounds : List (List Move)) (h : Hub)
      → Quiet id rounds
      → All (IsSilent id t) h.clients
      → now ≤ t + h.stale_after
      → t + h.stale_after < now + length rounds * h.ping_every
      → All (IsClosed id) (run_rounds now rounds h).clients
  unfolding run_rounds check_heartbeats
  rounds_close id t now [] h j a early late = absurd (omega (arith, early, late))
  rounds_close id t now (moves ∷ rounds) h j a early late =
      elim (Bool-cases (ltb (t + h.stale_after) next)) [
        | inl over ↦ stays-IsClosed id next rounds (check_heartbeats marshal next after) j.1 (
            heartbeat-IsClosed marshal id t next after.stale_after after.clients
              (ground (arith, over, same.1)) silent)
        | inr not_over ↦
            rounds_close id t next rounds (check_heartbeats marshal next after) j.1
              (step-Kept (IsSilent-Kept validate id t) marshal event_of (heartbeat next) after tt
                silent)
              (ground (arith, not_over, same.1))
              (rw (same.0, same.1) (one_round_less now (length rounds) h.ping_every late))
      ]
    where
      next : ℕ
      next = now + h.ping_every

      after : Hub
      after = run marshal event_of validate moves h

      same : SameSettings h after
      same = run-SameSettings moves h

      silent : All (IsSilent id t) after.clients
      silent = run-Kept (IsSilent-Kept validate id t) marshal event_of moves h j.0 a

  -- A client whose pong is not read any more is closed after as many heartbeats as it takes to exceed
  -- `stale_after`, or it is gone by then, whatever the goroutines do between the heartbeats.
  pub silent_client-IsClosed :
      (id now : ℕ) (rounds : List (List Move)) (h : Hub)
      → Quiet id rounds
      → All (IsSilent id now) h.clients
      → h.stale_after < length rounds * h.ping_every
      → All (IsClosed id) (run_rounds now rounds h).clients
  silent_client-IsClosed id now rounds h j a late =
      rounds_close id now now rounds h j a (omega arith) (omega (arith, late))
