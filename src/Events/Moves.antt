-- ===== src/Events/Moves.antt =====
-- The goroutines of internal/events/events.go interleaved: what a goroutine does between two waits for
-- the network, a channel or a lock is one move. `validate` is the `Validator`.
use a6_core.Prelude.{
  ℕ, String, Bool, true, false, not, Option, none, some, List, [], ◌∷◌, ◌++◌, ◌==◌, ◌&&◌, any,
  if◌then◌else◌,
}
use a6_core.State.Types.{Device}
use a6_core.Http.{Request}
use a6_core.Auth.Device.{extract_device_key}
use a6_core.Events.{
  Event, Client, Hub, close_client, touch_pong, enqueue, is_client, unregister, on_client, publish,
  check_heartbeats, connected, accept,
}

pub data Move : Type 0 where
  -- `Handler` up to `register`: the new client, the time, whether the upgrade succeeds
  connects : ℕ → ℕ → Bool → Request → Move
  -- `Handler` queues the greeting and starts the loops
  starts : ℕ → Move
  publishes : Event → Move
  heartbeat : ℕ → Move
  -- `readLoop` has read a frame, at a time, or failed to
  reads : ℕ → ℕ → Option String → Move
  -- `writeLoop` takes a message off the channel, and writes it or fails to
  writes : ℕ → Bool → Move
  -- `writeLoop` sees that the client is closed
  leaves : ℕ → Move

abbrev pub write_queued : Bool → Client → List String → Bool × Client
write_queued ok c [] = (true, c)
write_queued true c (msg ∷ rest) = (true, record c { send = rest; written = c.written ++ msg ∷ [] })
write_queued false c (msg ∷ rest) = (false, close_client (record c { send = rest }))

-- the body of `writeLoop` on a message: whether it goes on, and the client
abbrev pub write_next : Bool → Client → Bool × Client
write_next ok c = write_queued ok c c.send

-- `defer hub.unregister(client)` runs when `writeLoop` returns
abbrev pub ends_loop : Bool → ℕ → Client → Bool
ends_loop ok id c = is_client id c && c.started && not (write_next ok c).0

abbrev pub ends_closed : ℕ → Client → Bool
ends_closed id c = is_client id c && c.started && c.closed

abbrev pub when_started : (Client → Client) → Client → Client
when_started f c = if c.started then f c else c

abbrev pub is_pong : Option String → Bool
is_pong none = false
is_pong (some name) = name == "pong"

module _ (event_of : String → Option String) where
  -- the body of `readLoop`
  abbrev pub read_frame : ℕ → Option String → Client → Client
  read_frame now none c = close_client c
  read_frame now (some frame) c = if is_pong (event_of frame) then touch_pong now c else c

module _ (marshal : Event → Option String) (event_of : String → Option String)
    (validate : String → Option Device) where
  -- A move that is not possible changes nothing; a pointer is new when it is made.
  unfoldable pub step : Move → Hub → Hub
  step (connects id now upgrades r) h =
      if any (is_client id) h.clients
      then h
      else (accept id now upgrades (validate (extract_device_key r)) h).1
  step (starts id) h =
      on_client id
        (λ c. if c.started then c else record (enqueue (connected marshal) c) { started = true }) h
  step (publishes e) h = publish marshal e h
  step (heartbeat now) h = check_heartbeats marshal now h
  step (reads id now frame) h = on_client id (when_started (read_frame event_of now frame)) h
  step (writes id ok) h =
      let written = on_client id (when_started (λ c. (write_next ok c).1)) h in
      if any (ends_loop ok id) h.clients then unregister id written else written
  step (leaves id) h = if any (ends_closed id) h.clients then unregister id h else h

  unfoldable pub run : List Move → Hub → Hub
  unfolding step
  run [] h = h
  run (m ∷ moves) h = run moves (step m h)
