-- ===== src/Events/Tests.antt =====
-- The hub at concrete events and frames.
use a6_core.Prelude.{
  String, ◌==◌, false, true, Option, none, some, List, [], ◌∷◌, ◌≡◌, refl, All, inr, cut_prefix,
  arith, if◌then◌else◌,
}
use a6_core.State.Types.{Device}
use a6_core.Samples.{phone, request}
use a6_core.Http.{Request, malformed}
use a6_core.Auth.Device.{extract_device_key}
use a6_core.Events.{Event, Client, Hub, new_hub, new_client, check_heartbeats}
use a6_core.Events.Moves.{Move, connects, starts, publishes, reads, writes, step, run}
use a6_core.Events.Delivery.{HasBeenSent, published_is_delivered}
use a6_core.Events.Heartbeat.{IsClosed, run_rounds, silent_client-IsClosed}

abbrev name_only : Event → Option String
name_only e = some e.event

abbrev as_it_is : String → Option String
as_it_is frame = some frame

abbrev knows_k2 : String → Option Device
knows_k2 key = if key == "k2" then some phone else none

abbrev with_k2 : Request
with_k2 = request "Bearer k2" "" malformed

abbrev joined : List Move
joined = connects 7 0 true with_k2 ∷ starts 7 ∷ []

abbrev mode_changed : Event
mode_changed = record { event = "mode.changed"; fields = [] }

abbrev greeted : Hub
greeted = record new_hub {
  clients = record (new_client 7 phone 0) { send = "connected" ∷ []; started = true } ∷ [];
}

joined_greeted : run name_only as_it_is knows_k2 joined new_hub ≡ greeted
unfolding run step extract_device_key cut_prefix
joined_greeted = refl

abbrev later_moves : List Move
later_moves = writes 7 true ∷ writes 7 true ∷ reads 7 5 (some "pong") ∷ []

published_is_delivered_example :
    All
      (HasBeenSent 7 ("connected" ∷ "mode.changed" ∷ []))
      (run name_only as_it_is knows_k2 (publishes mode_changed ∷ later_moves) greeted).clients
published_is_delivered_example =
    published_is_delivered name_only as_it_is knows_k2 mode_changed "mode.changed" later_moves 7
      ("connected" ∷ []) greeted refl (λ e. (refl, refl), tt) (tt, (tt, (λ p. tt, tt)))

abbrev three_rounds : List (List Move)
three_rounds = [] ∷ (writes 7 true ∷ []) ∷ (publishes mode_changed ∷ []) ∷ []

silent_client-IsClosed_example :
    All (IsClosed 7) (run_rounds name_only as_it_is knows_k2 0 three_rounds greeted).clients
silent_client-IsClosed_example =
    silent_client-IsClosed name_only as_it_is knows_k2 7 0 three_rounds greeted
      (tt, ((tt, tt), ((tt, tt), tt))) (λ e. inr (omega arith), tt) (omega arith)

-- Two heartbeats of the default intervals are not enough.
two_heartbeats_leave_it :
    All
      (λ (c : Client). c.closed ≡ false)
      (run_rounds name_only as_it_is knows_k2 0 ([] ∷ [] ∷ []) greeted).clients
unfolding run_rounds run step check_heartbeats
two_heartbeats_leave_it = (refl, tt)
