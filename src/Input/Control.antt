-- ===== src/Input/Control.antt =====
-- internal/input/input.go: which connection controls the input device. The goroutines of the connections
-- interleave; a move is what one does with the mutex, or on one channel. A connection has a number. `Handler`
-- makes four moves one after the other, `takes`, `tells`, `closes` and `grants`, and other goroutines' moves may
-- come in between; only after `grants` does its read loop run. A move is possible here whatever its goroutine
-- did before, which allows more runs than there are.
-- The messages and what the injector answers, `none` or an error, are parameters.
use a6_core.Prelude.{
  ℕ, String, Bool, true, false, Option, none, some, List, [], ◌∷◌, ◌++◌, ◌&&◌, eqb, ltb, length,
  if◌then◌else◌,
}

abbrev pub send_buffer_size : ℕ
send_buffer_size = 16

pub data Outbound : Type 0 where
  control_granted : Outbound
  control_taken : String → Outbound
  error : String → Outbound

-- `closed` is the channel of that name, `open` the network connection, and `reading` says that the
-- read loop runs
pub record Controller : Type 0 where
  pub device_name : String
  pub send : List Outbound
  pub closed : Bool
  pub open_conn : Bool
  pub reading : Bool

-- `enqueue`: a message for a slow client is dropped
unfoldable pub enqueue : Outbound → Controller → Controller
enqueue msg c =
    if ltb (length c.send) send_buffer_size then record c { send = c.send ++ msg ∷ [] } else c

-- `close`
unfoldable pub close : Controller → Controller
close c = record c { closed = true }

abbrev pub Connections : Type 0
Connections = ℕ → Option Controller

abbrev pub assign : ℕ → Controller → Connections → Connections
assign id c conns j = if eqb id j then some c else conns j

abbrev pub modify_found :
    ℕ → (Controller → Controller) → Connections → Option Controller → Connections
modify_found id f conns none = conns
modify_found id f conns (some c) = assign id (f c) conns

abbrev pub modify : ℕ → (Controller → Controller) → Connections → Connections
modify id f conns = modify_found id f conns (conns id)

abbrev pub new_controller : String → Controller
new_controller name = record {
  device_name = name;
  send = [];
  closed = false;
  open_conn = true;
  reading = false;
}

abbrev pub report : Option String → Controller → Controller
report none c = c
report (some e) c = enqueue (error e) c

abbrev is_current : ℕ → Option ℕ → Bool
is_current id none = false
is_current id (some j) = eqb id j

-- `releaseIfCurrent`
abbrev pub release_if_current : ℕ → Option ℕ → Option ℕ
release_if_current id current = if is_current id current then none else current

-- a message that `writeLoop` takes off the channel and writes
abbrev pub behind_first : List Outbound → List Outbound
behind_first [] = []
behind_first (msg ∷ rest) = rest

abbrev pub write_first : Controller → Controller
write_first c = record c { send = behind_first c.send }

-- the branch of `writeLoop` for a closed channel: `drainPending`, then the connection is closed
abbrev pub drain : Controller → Controller
drain c = if c.closed then record c { send = []; open_conn = false } else c

abbrev pub end_read : Controller → Controller
end_read c = close (record c { reading = false })

-- the message of `Handler`, and the start of its read loop
abbrev pub start_reading : Controller → Controller
start_reading c = record (enqueue control_granted c) { reading = true }

module _ (M : Type 0) where
  -- `injected` holds what was given to the injector, with the connection, the last message first
  pub record Manager : Type 0 where
    pub current : Option ℕ
    pub conns : Connections
    pub injected : List (ℕ × M)

  abbrev pub new_manager : Manager
  new_manager = record { current = none; conns = λ id. none; injected = [] }

  pub data Move : Type 0 where
    takes : ℕ → String → Move
    tells : ℕ → String → Move
    closes grants : ℕ → Move
    receives : ℕ → M → Move
    writes write_fails drains read_ends : ℕ → Move

  -- `takeControl`, by a new connection; whom it evicts is the one that was current
  abbrev pub take_control : ℕ → String → Manager → Option Controller → Manager
  take_control id name s (some c) = s
  take_control id name s none = record s {
    current = some id;
    conns = assign id (new_controller name) s.conns;
  }

  -- the moves of `Handler` for a connection, of which the second and the third are those on whom it evicts
  abbrev pub connects : ℕ → String → Option ℕ → List Move
  connects id name none = takes id name ∷ grants id ∷ []
  connects id name (some old) = takes id name ∷ tells old name ∷ closes old ∷ grants id ∷ []

  module _ (inject : M → Option String) where
    -- a round of `readLoop`
    abbrev pub receive : ℕ → M → Manager → Option Controller → Manager
    receive id m s none = s
    receive id m s (some c) =
        if c.reading && c.open_conn
        then record s {
          conns = assign id (report (inject m) c) s.conns;
          injected = (id, m) ∷ s.injected;
        }
        else s

    -- A move that is not possible changes nothing.
    unfoldable pub step : Move → Manager → Manager
    step (takes id name) s = take_control id name s (s.conns id)
    step (tells old name) s = record s { conns = modify old (enqueue (control_taken name)) s.conns }
    step (closes old) s = record s { conns = modify old close s.conns }
    step (grants id) s = record s { conns = modify id start_reading s.conns }
    step (receives id m) s = receive id m s (s.conns id)
    step (writes id) s = record s { conns = modify id write_first s.conns }
    step (write_fails id) s = record s { conns = modify id close s.conns }
    step (drains id) s = record s { conns = modify id drain s.conns }
    step (read_ends id) s = record s {
      conns = modify id end_read s.conns;
      current = release_if_current id s.current;
    }

    unfoldable pub run : List Move → Manager → Manager
    unfolding step
    run [] s = s
    run (m ∷ moves) s = run moves (step m s)
