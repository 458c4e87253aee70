-- ===== src/Events/Delivery.antt =====
-- What becomes of a message that was queued.
use a6_core.Prelude.{
  ℕ, String, true, false, Option, some, List, [], ◌∷◌, ◌++◌, ◌≡◌, ◌≢◌, sym, ◌∙◌, ap, subst, length,
  ltb, map, All, if_lem,
}
use mathlib.Core.List.{append_assoc, append-nil}
use a6_core.State.Types.{Device}
use a6_core.Events.{Event, send_buffer_size, Client, Hub, close_client, enqueue, publish}
use a6_core.Events.Moves.{Move, publishes, step, run}
use a6_core.Events.Clientwise.{Kept, Allows, run-Kept}
use a6_core.Events.Queues.{Any}

-- what the connection took and then what waits in the queue
abbrev pub history : Client → List String
history c = c.written ++ c.send

abbrev pub StartsWith : List String → List String → Type 0
StartsWith xs ys = (rest : List String) × (ys ≡ xs ++ rest)

-- Unless it is closed, the client has been sent `old`, in this order and nothing before it.
abbrev pub HasBeenSent : ℕ → List String → Client → Type 0
HasBeenSent id old c = c.id ≡ id → c.closed ≡ false → StartsWith old (history c)

abbrev pub OtherThan : ℕ → ℕ → Type 0
OtherThan id other = other ≢ id

StartsWith-append : (old xs ys : List String) → StartsWith old xs → StartsWith old (xs ++ ys)
StartsWith-append old xs ys (rest, e) = (rest ++ ys, ap (λ l. l ++ ys) e ∙ append_assoc old rest ys)

module _ (validate : String → Option Device) (id : ℕ) (old : List String) where
  close_client-HasBeenSent : (c : Client) → HasBeenSent id old (close_client c)
  close_client-HasBeenSent c =
      if_lem (HasBeenSent id old) c.closed c _ (λ e i o. absurd (cc (e, o)))
        (λ e i o. absurd (cc o))

  HasBeenSent-Kept : Kept validate (OtherThan id) Any (HasBeenSent id old)
  HasBeenSent-Kept = record {
    joined = λ i d now key v j e. absurd (j e);
    started = λ c p i o. p i o;
    queued = λ msg c e p i o.
        subst (StartsWith old) (append_assoc c.written c.send (msg ∷ []))
          (StartsWith-append old (history c) (msg ∷ []) (p i o));
    ponged = λ now c j p i o. p i o;
    taken = λ msg rest c e p i o.
        subst (StartsWith old)
          (ap (λ q. c.written ++ q) e ∙ sym (append_assoc c.written (msg ∷ []) rest)) (p i o);
    dropped = λ msg rest c e p. close_client-HasBeenSent (record c { send = rest });
    closed = λ c p. close_client-HasBeenSent c;
  }

-- Every client with this pointer has room, and has been sent exactly this.
abbrev pub HasRoom : ℕ → List String → Client → Type 0
HasRoom id old c = c.id ≡ id → (ltb (length c.send) send_buffer_size ≡ true) × (history c ≡ old)

enqueue-HasRoom :
    (id : ℕ) (old : List String) (msg : String) (cs : List Client)
    → All (HasRoom id old) cs
    → All (HasBeenSent id (old ++ msg ∷ [])) (map (enqueue (some msg)) cs)
enqueue-HasRoom id old msg [] a = tt
enqueue-HasRoom id old msg (c ∷ cs) a = (
  if_lem (HasBeenSent id (old ++ msg ∷ [])) (ltb (length c.send) send_buffer_size) _ c
      (λ e i o. (
        [],
        sym (append_assoc c.written c.send (msg ∷ []))
            ∙ ap (λ l. l ++ msg ∷ []) (a.0 i).1
            ∙ sym (append-nil (old ++ msg ∷ [])),
      ))
      (λ e i o. absurd (cc (e, (a.0 i).0))),
  enqueue-HasRoom id old msg cs a.1,
)

-- A message that is published while a client has room is queued for it behind all earlier ones, and
-- whatever the goroutines do afterwards, as long as the client is not closed, the connection has taken and
-- the queue holds, in this order, what they did before, the message, and only then anything else: no
-- message in between is lost, repeated or overtaken. The pointer of the client is not made anew meanwhile.
pub published_is_delivered :
    (marshal : Event → Option String) (event_of : String → Option String)
    (validate : String → Option Device) (e : Event) (msg : String) (moves : List Move) (id : ℕ)
    (old : List String) (h : Hub)
    → marshal e ≡ some msg
    → All (HasRoom id old) h.clients
    → All (Allows (OtherThan id) Any event_of) moves
    → All
        (HasBeenSent id (old ++ msg ∷ []))
        (run marshal event_of validate (publishes e ∷ moves) h).clients
unfolding run step publish
published_is_delivered marshal event_of validate e msg moves id old h m a j =
    run-Kept (HasBeenSent-Kept validate id (old ++ msg ∷ [])) marshal event_of moves
      (publish marshal e h) j (rw m (enqueue-HasRoom id old msg h.clients a))
