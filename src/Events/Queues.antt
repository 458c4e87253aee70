-- ===== src/Events/Queues.antt =====
-- What holds of every client that the hub knows.
use a6_core.Prelude.{
  ℕ, String, ◌≤◌, Option, none, some, List, [], ◌∷◌, ◌≡◌, refl, true, false, Bool, length,
  length-append, All, if_lem, arith,
}
use a6_core.State.Types.{Device}
use a6_core.Events.{Event, send_buffer_size, Client, close_client, new_hub_with_intervals}
use a6_core.Events.Moves.{Move, connects, starts, publishes, heartbeat, reads, writes, leaves, run}
use a6_core.Events.Clientwise.{Kept, Allows, run-Kept}

-- how often the connection of a client was closed
abbrev closes_of : Bool → ℕ
closes_of true = 1
closes_of false = 0

-- The queue fits the channel, and the connection was closed once if the client is closed, else never.
pub record IsSound (c : Client) : Type 0 where
  pub bounded : length c.send ≤ send_buffer_size
  pub closed_once : c.conn_closes ≡ closes_of c.closed

abbrev pub Any : ℕ → Type 0
Any id = Unit

close_client-IsSound : (c : Client) → IsSound c → IsSound (close_client c)
close_client-IsSound c s =
    if_lem IsSound c.closed c _ (λ _. s)
      (λ e. record { bounded = s.bounded; closed_once = ground (arith, e, s.closed_once) })

IsSound-Kept : (validate : String → Option Device) → Kept validate Any Any IsSound
IsSound-Kept validate = record {
  joined = λ id d now key v j. record { bounded = omega arith; closed_once = refl };
  started = λ c s. record { bounded = s.bounded; closed_once = s.closed_once };
  queued = λ msg c e s. record {
    bounded = ground (arith, length-append c.send (msg ∷ []), e);
    closed_once = s.closed_once;
  };
  ponged = λ now c j s. record { bounded = s.bounded; closed_once = s.closed_once };
  taken = λ msg rest c e s. record {
    bounded = shorter c msg rest e s.bounded;
    closed_once = s.closed_once;
  };
  dropped = λ msg rest c e s.
      close_client-IsSound (record c { send = rest })
        (record { bounded = shorter c msg rest e s.bounded; closed_once = s.closed_once });
  closed = close_client-IsSound;
}
  where
    shorter :
        (c : Client) (msg : String) (rest : List String)
        → c.send ≡ msg ∷ rest
        → length c.send ≤ send_buffer_size
        → length rest ≤ send_buffer_size
    shorter c msg rest e h = ground (arith, e, h)

All-allowed :
    (event_of : String → Option String) (moves : List Move) → All (Allows Any Any event_of) moves
All-allowed event_of [] = tt
All-allowed event_of (connects id now upgrades r ∷ moves) = (tt, All-allowed event_of moves)
All-allowed event_of (starts id ∷ moves) = (tt, All-allowed event_of moves)
All-allowed event_of (publishes e ∷ moves) = (tt, All-allowed event_of moves)
All-allowed event_of (heartbeat now ∷ moves) = (tt, All-allowed event_of moves)
All-allowed event_of (reads id now none ∷ moves) = (tt, All-allowed event_of moves)
All-allowed event_of (reads id now (some f) ∷ moves) = (λ _. tt, All-allowed event_of moves)
All-allowed event_of (writes id ok ∷ moves) = (tt, All-allowed event_of moves)
All-allowed event_of (leaves id ∷ moves) = (tt, All-allowed event_of moves)

-- Whatever the goroutines do, in whatever order, the queue of a client holds 16 messages at most, and its
-- connection is closed once if the client is closed, and never before.
pub clients-IsSound :
    (marshal : Event → Option String) (event_of : String → Option String)
    (validate : String → Option Device) (ping_every stale_after : ℕ) (moves : List Move)
    → All IsSound
        (run marshal event_of validate moves
          (new_hub_with_intervals ping_every stale_after)).clients
clients-IsSound marshal event_of validate ping_every stale_after moves =
    run-Kept (IsSound-Kept validate) marshal event_of moves
      (new_hub_with_intervals ping_every stale_after) (All-allowed event_of moves) tt

-- the key of its device was accepted
abbrev pub IsKnown : (String → Option Device) → Client → Type 0
IsKnown validate c = (key : String) × (validate key ≡ some c.device)

close_client-IsKnown :
    (validate : String → Option Device) (c : Client)
    → IsKnown validate c
    → IsKnown validate (close_client c)
close_client-IsKnown validate c k = if_lem (IsKnown validate) c.closed c _ (λ _. k) (λ _. k)

IsKnown-Kept : (validate : String → Option Device) → Kept validate Any Any (IsKnown validate)
IsKnown-Kept validate = record {
  joined = λ id d now key v j. (key, v);
  started = λ c k. k;
  queued = λ msg c e k. k;
  ponged = λ now c j k. k;
  taken = λ msg rest c e k. k;
  dropped = λ msg rest c e k. close_client-IsKnown validate (record c { send = rest }) k;
  closed = close_client-IsKnown validate;
}

-- Whatever the goroutines do, every client to which events go belongs to a device whose key was
-- accepted when it connected.
pub clients-AreKnown :
    (marshal : Event → Option String) (event_of : String → Option String)
    (validate : String → Option Device) (ping_every stale_after : ℕ) (moves : List Move)
    → All
        (IsKnown validate)
        (run marshal event_of validate moves
          (new_hub_with_intervals ping_every stale_after)).clients
clients-AreKnown marshal event_of validate ping_every stale_after moves =
    run-Kept (IsKnown-Kept validate) marshal event_of moves
      (new_hub_with_intervals ping_every stale_after) (All-allowed event_of moves) tt
