-- ===== src/Events/Clientwise.antt =====
-- Every move acts on the clients one by one, so what each act on a client keeps, every move keeps.
use a6_core.Prelude.{
  ℕ, String, Bool, true, false, not, Option, none, some, List, [], ◌∷◌, ◌++◌, ◌≡◌, refl, sym, subst,
  map, any, length, ltb, All, All-map, All-keep_if, if_lem, arith,
}
use a6_core.State.Types.{Device}
use a6_core.Auth.Device.{extract_device_key}
use a6_core.Events.{
  Event, send_buffer_size, Client, Hub, close_client, touch_pong, enqueue, is_client, unregister,
  on_client, broadcast, publish, ping, is_stale, ping_or_mark, close_marked, check_heartbeats,
  connected, new_client, accept,
}
use a6_core.Events.Moves.{
  Move, connects, starts, publishes, heartbeat, reads, writes, leaves, write_queued, write_next,
  ends_loop, ends_closed, when_started, is_pong, read_frame, step, run,
}

-- What the acts on one client keep. `Joins` and `Pongs` say of a client's pointer whether it may be
-- made and whether its pong may be read.
pub record Kept (validate : String → Option Device) (Joins Pongs : ℕ → Type 0) (P : Client → Type 0)
    : Type 0 where
  pub joined :
      (id : ℕ) (d : Device) (now : ℕ) (key : String)
      → validate key ≡ some d
      → Joins id
      → P (new_client id d now)
  pub started : (c : Client) → P c → P (record c { started = true })
  pub queued :
      (msg : String) (c : Client)
      → ltb (length c.send) send_buffer_size ≡ true
      → P c
      → P (record c { send = c.send ++ msg ∷ [] })
  pub ponged : (now : ℕ) (c : Client) → Pongs c.id → P c → P (touch_pong now c)
  pub taken :
      (msg : String) (rest : List String) (c : Client)
      → c.send ≡ msg ∷ rest
      → P c
      → P (record c { send = rest; written = c.written ++ msg ∷ [] })
  pub dropped :
      (msg : String) (rest : List String) (c : Client)
      → c.send ≡ msg ∷ rest
      → P c
      → P (close_client (record c { send = rest }))
  pub closed : (c : Client) → P c → P (close_client c)

abbrev AllowsFrame : (ℕ → Type 0) → (String → Option String) → ℕ → Option String → Type 0
AllowsFrame Pongs event_of id none = Unit
AllowsFrame Pongs event_of id (some frame) = is_pong (event_of frame) ≡ true → Pongs id

-- the moves in which clients join and pongs are read only as `Joins` and `Pongs` say
abbrev pub Allows : (ℕ → Type 0) → (ℕ → Type 0) → (String → Option String) → Move → Type 0
Allows Joins Pongs event_of (connects id now upgrades r) = Joins id
Allows Joins Pongs event_of (reads id now frame) = AllowsFrame Pongs event_of id frame
Allows Joins Pongs event_of _ = Unit

module _ {validate : String → Option Device} {Joins Pongs : ℕ → Type 0} {P : Client → Type 0}
    (kept : Kept validate Joins Pongs P) where
  pub enqueue-Kept : (msg : Option String) (c : Client) → P c → P (enqueue msg c)
  enqueue-Kept none c p = p
  enqueue-Kept (some msg) c p =
      if_lem P (ltb (length c.send) send_buffer_size) _ c (λ e. kept.queued msg c e p) (λ _. p)

  when_started-Kept :
      (f : Client → Client) (c : Client) → (P c → P (f c)) → P c → P (when_started f c)
  when_started-Kept f c h p = if_lem P c.started (f c) c (λ _. h p) (λ _. p)

  write_queued-Kept :
      (ok : Bool) (c : Client) (q : List String) → c.send ≡ q → P c → P (write_queued ok c q).1
  write_queued-Kept ok c [] e p = p
  write_queued-Kept true c (msg ∷ rest) e p = kept.taken msg rest c e p
  write_queued-Kept false c (msg ∷ rest) e p = kept.dropped msg rest c e p

  write_next-Kept : (ok : Bool) (c : Client) → P c → P (write_next ok c).1
  write_next-Kept ok c p = write_queued-Kept ok c c.send refl p

  on_client-Kept :
      (id : ℕ) (f : Client → Client) (h : Hub)
      → ((c : Client) → c.id ≡ id → P c → P (f c))
      → All P h.clients
      → All P (on_client id f h).clients
  on_client-Kept id f h k =
      All-map P _ h.clients
        (λ c p. if_lem P (is_client id c) (f c) c (λ e. k c (ground arith) p) (λ _. p))

  unregister-Kept : (id : ℕ) (h : Hub) → All P h.clients → All P (unregister id h).clients
  unregister-Kept id h = All-keep_if P (λ c. not (is_client id c)) h.clients

  accept-Kept :
      (id now : ℕ) (upgrades : Bool) (key : String) (d : Option Device) (h : Hub)
      → validate key ≡ d
      → Joins id
      → All P h.clients
      → All P (accept id now upgrades d h).1.clients
  accept-Kept id now upgrades key none h v j a = a
  accept-Kept id now false key (some d) h v j a = a
  accept-Kept id now true key (some d) h v j a = (kept.joined id d now key v j, a)

  broadcast-Kept :
      (marshal : Event → Option String) (msg : Option String) (h : Hub)
      → All P h.clients
      → All P (broadcast marshal msg h).clients
  broadcast-Kept marshal none h a = a
  broadcast-Kept marshal (some msg) h a =
      All-map P (enqueue (some msg)) h.clients (enqueue-Kept (some msg)) a

  heartbeat-Kept :
      (marshal : Event → Option String) (now stale_after : ℕ) (cs : List Client)
      → All P cs
      → All P (map (close_marked marshal) (map (ping_or_mark marshal now stale_after) cs))
  heartbeat-Kept marshal now stale_after [] a = a
  heartbeat-Kept marshal now stale_after (c ∷ cs) a = (
    if_lem (λ m. P (close_marked marshal m)) (is_stale marshal now stale_after c) (true, c)
        (false, enqueue (ping marshal) c) (λ _. kept.closed c a.0)
        (λ _. enqueue-Kept (ping marshal) c a.0),
    heartbeat-Kept marshal now stale_after cs a.1,
  )

  read_frame-Kept :
      (event_of : String → Option String) (id now : ℕ) (frame : Option String) (c : Client)
      → AllowsFrame Pongs event_of id frame
      → c.id ≡ id
      → P c
      → P (read_frame event_of now frame c)
  read_frame-Kept event_of id now none c a e p = kept.closed c p
  read_frame-Kept event_of id now (some frame) c a e p =
      if_lem P (is_pong (event_of frame)) (touch_pong now c) c
        (λ q. kept.ponged now c (subst Pongs (sym e) (a q)) p) (λ _. p)

  -- A move that is allowed keeps, of every client, what the acts on one client keep.
  pub step-Kept :
      (marshal : Event → Option String) (event_of : String → Option String) (m : Move) (h : Hub)
      → Allows Joins Pongs event_of m
      → All P h.clients
      → All P (step marshal event_of validate m h).clients
  unfolding step publish check_heartbeats
  step-Kept marshal event_of (connects id now upgrades r) h j a =
      if_lem (λ (t : Hub). All P t.clients) (any (is_client id) h.clients) h _ (λ _. a)
        (λ _.
          accept-Kept id now upgrades (extract_device_key r) (validate (extract_device_key r)) h
            refl j a)
  step-Kept marshal event_of (starts id) h j a =
      on_client-Kept id _ h
        (λ c e p.
          if_lem P c.started c _ (λ _. p)
            (λ _. kept.started _ (enqueue-Kept (connected marshal) c p)))
        a
  step-Kept marshal event_of (publishes e) h j a = broadcast-Kept marshal (marshal e) h a
  step-Kept marshal event_of (heartbeat now) h j a =
      heartbeat-Kept marshal now h.stale_after h.clients a
  step-Kept marshal event_of (reads id now frame) h j a =
      on_client-Kept id _ h
        (λ c e p.
          when_started-Kept (read_frame event_of now frame) c
            (read_frame-Kept event_of id now frame c j e) p)
        a
  step-Kept marshal event_of (writes id ok) h j a =
      if_lem (λ (t : Hub). All P t.clients) (any (ends_loop ok id) h.clients) _ _
        (λ _. unregister-Kept id after written) (λ _. written)
    where
      after : Hub
      after = on_client id (when_started (λ c. (write_next ok c).1)) h

      written : All P after.clients
      written =
          on_client-Kept id _ h
            (λ c e. when_started-Kept (λ c. (write_next ok c).1) c (write_next-Kept ok c)) a
  step-Kept marshal event_of (leaves id) h j a =
      if_lem (λ (t : Hub). All P t.clients) (any (ends_closed id) h.clients) _ h
        (λ _. unregister-Kept id h a) (λ _. a)

  pub run-Kept :
      (marshal : Event → Option String) (event_of : String → Option String) (moves : List Move)
      (h : Hub)
      → All (Allows Joins Pongs event_of) moves
      → All P h.clients
      → All P (run marshal event_of validate moves h).clients
  unfolding run
  run-Kept marshal event_of [] h j a = a
  run-Kept marshal event_of (m ∷ moves) h j a =
      run-Kept marshal event_of moves (step marshal event_of validate m h) j.1
        (step-Kept marshal event_of m h j.0 a)
