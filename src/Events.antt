-- ===== src/Events.antt =====
-- internal/events/events.go: the hub and its clients. `marshal` is `json.Marshal` of an event, and
-- `event_of` what `json.Unmarshal` makes of a frame: the name of its event.
pub mod Moves
pub mod Clientwise
pub mod Queues
pub mod Delivery
pub mod Heartbeat
mod Tests
use a6_core.Prelude.{
  ℕ, suc, String, ◌+◌, ◌*◌, ◌-◌, Bool, true, false, not, Option, none, some, List, [], ◌∷◌, ◌++◌,
  map, length, ltb, eqb, ◌==◌, keep_if, if◌then◌else◌,
}
use a6_core.State.Types.{Device}

pub record Event : Type 0 where
  pub event : String
  pub fields : List (String × String)

abbrev second : ℕ
second = 1000000000

abbrev pub default_ping_interval : ℕ
default_ping_interval = 30 * second

abbrev pub default_stale_after : ℕ
default_stale_after = 60 * second

abbrev pub send_buffer_size : ℕ
send_buffer_size = 16

-- `id` stands for the pointer. `send` holds the queue of the channel, the oldest message first;
-- `started` is set once the handler has queued the greeting and runs the two loops. `written` are the
-- messages that the connection took, in order, and `conn_closes` counts the calls of its `Close`.
pub record Client : Type 0 where
  pub id : ℕ
  pub device : Device
  pub send : List String
  pub last_pong : ℕ
  pub closed : Bool
  pub started : Bool
  pub written : List String
  pub conn_closes : ℕ

-- `close`; `closeOnce` has run when `closed` is set
abbrev pub close_client : Client → Client
close_client c = if c.closed then c else record c { closed = true; conn_closes = suc c.conn_closes }

-- `touchPong`
abbrev pub touch_pong : ℕ → Client → Client
touch_pong now c = record c { last_pong = now }

-- `sinceLastPong`; the clock does not go back
abbrev pub since_last_pong : ℕ → Client → ℕ
since_last_pong now c = now - c.last_pong

-- `enqueue`
abbrev pub enqueue : Option String → Client → Client
enqueue none c = c
enqueue (some msg) c =
    if ltb (length c.send) send_buffer_size then record c { send = c.send ++ msg ∷ [] } else c

pub record Hub : Type 0 where
  pub clients : List Client
  pub ping_every : ℕ
  pub stale_after : ℕ

-- `NewHubWithIntervals`
abbrev pub new_hub_with_intervals : ℕ → ℕ → Hub
new_hub_with_intervals ping_every stale_after = record {
  clients = [];
  ping_every = ping_every;
  stale_after = stale_after;
}

-- `NewHub`
abbrev pub new_hub : Hub
new_hub = new_hub_with_intervals default_ping_interval default_stale_after

abbrev pub is_client : ℕ → Client → Bool
is_client id c = eqb c.id id

-- `register`
abbrev pub register : Client → Hub → Hub
register c h = record h { clients = c ∷ h.clients }

-- `unregister`
abbrev pub unregister : ℕ → Hub → Hub
unregister id h = record h { clients = keep_if (λ c. not (is_client id c)) h.clients }

abbrev pub with_clients : (Client → Client) → Hub → Hub
with_clients f h = record h { clients = map f h.clients }

-- what is done to one client
abbrev pub on_client : ℕ → (Client → Client) → Hub → Hub
on_client id f h = with_clients (λ c. if is_client id c then f c else c) h

module _ (marshal : Event → Option String) where
  abbrev pub broadcast : Option String → Hub → Hub
  broadcast none h = h
  broadcast (some msg) h = with_clients (enqueue (some msg)) h

  -- `Publish`
  unfoldable pub publish : Event → Hub → Hub
  publish event h = broadcast (marshal event) h

  abbrev pub ping : Option String
  ping = marshal (record { event = "ping"; fields = [] })

  abbrev pub is_stale : ℕ → ℕ → Client → Bool
  is_stale now stale_after c = ltb stale_after (since_last_pong now c)

  -- the first loop of `checkHeartbeats`: the clients, with those marked that go to `stale`
  abbrev pub ping_or_mark : ℕ → ℕ → Client → Bool × Client
  ping_or_mark now stale_after c =
      if is_stale now stale_after c then (true, c) else (false, enqueue ping c)

  -- the second loop
  abbrev pub close_marked : Bool × Client → Client
  close_marked (true, c) = close_client c
  close_marked (false, c) = c

  -- `checkHeartbeats`
  unfoldable pub check_heartbeats : ℕ → Hub → Hub
  check_heartbeats now h = record h {
    clients = map close_marked (map (ping_or_mark now h.stale_after) h.clients);
  }

  -- `RunStatusTicks` at a tick; `fields` is what the provider answers
  unfoldable pub status_tick : List (String × String) → Hub → Hub
  unfolding publish
  status_tick fields h = publish (record { event = "status.tick"; fields = fields }) h

  abbrev pub connected : Option String
  connected = marshal (record { event = "connected"; fields = ("api_version", "1.0") ∷ [] })

-- the client that `Handler` makes
abbrev pub new_client : ℕ → Device → ℕ → Client
new_client id device now = record {
  id = id;
  device = device;
  send = [];
  last_pong = now;
  closed = false;
  started = false;
  written = [];
  conn_closes = 0;
}

-- how a request ended before there was a client, or that there is one
pub data Accepted : Type 0 where
  unauthorized not_upgraded registered : Accepted

abbrev pub accept : ℕ → ℕ → Bool → Option Device → Hub → Accepted × Hub
accept id now upgrades none h = (unauthorized, h)
accept id now false (some d) h = (not_upgraded, h)
accept id now true (some d) h = (registered, register (new_client id d now) h)
