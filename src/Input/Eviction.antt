-- ===== src/Input/Eviction.antt =====
-- What becomes of a controller whose control is taken.
use a6_core.Prelude.{
  ℕ, String, true, false, Option, none, some, [], ◌∷◌, ◌++◌, ◌≡◌, refl, ap, ◌∙◌, if◌then◌else◌, eqb,
  ltb, ◌<◌, length, arith,
}
use a6_core.Input.Control.{
  send_buffer_size, control_taken, Controller, Connections, modify_found, modify, take_control,
  start_reading, enqueue, close, Manager, connects, receives, takes, tells, closes, step, run,
}

modify_found_other :
    (id j : ℕ) (f : Controller → Controller) (conns : Connections) (o : Option Controller)
    → eqb id j ≡ false
    → modify_found id f conns o j ≡ conns j
modify_found_other id j f conns none ne = refl
modify_found_other id j f conns (some c) ne = rw ne refl

-- A change of a connection leaves the others.
modify_other :
    (id j : ℕ) (f : Controller → Controller) (conns : Connections)
    → eqb id j ≡ false
    → modify id f conns j ≡ conns j
modify_other id j f conns ne = modify_found_other id j f conns (conns id) ne

modify_there :
    (id : ℕ) (f : Controller → Controller) (conns : Connections) (c : Controller)
    → conns id ≡ some c
    → modify id f conns id ≡ some (f c)
modify_there id f conns c h =
    let same : eqb id id ≡ true = ground arith in
    ap (λ o. modify_found id f conns o id) h ∙ ap (λ b. if b then some (f c) else conns id) same

module _ (M : Type 0) (inject : M → Option String) (s : Manager M) (old id : ℕ) (name : String)
    (c : Controller) where
  taken : Controller
  taken = record c { send = c.send ++ control_taken name ∷ []; closed = true }

  -- the moves of the new connection's handler, with no others in between
  abbrev pub afterwards : Manager M
  afterwards = run M inject (connects M id name (some old)) s

  after_taking :
      s.conns id ≡ none
      → s.conns old ≡ some c
      → eqb id old ≡ false
      → (take_control M id name s (s.conns id)).conns old ≡ some c
  after_taking fresh there ne = rw fresh (rw ne there)

  told : length c.send < send_buffer_size → close (enqueue (control_taken name) c) ≡ taken
  unfolding enqueue close taken
  told room = let full : ltb (length c.send) send_buffer_size ≡ true = ground arith in rw full refl

  evicted_conns :
      s.conns id ≡ none
      → s.conns old ≡ some c
      → eqb id old ≡ false
      → length c.send < send_buffer_size
      → afterwards.conns old ≡ some taken
  unfolding run step
  evicted_conns fresh there ne room =
      let taking = step M inject (takes id name) s in
      let telling = step M inject (tells old name) taking in
      let closing = step M inject (closes old) telling in
      modify_other id old start_reading closing.conns ne
      ∙ modify_there old close telling.conns (enqueue (control_taken name) c) (
          modify_there old (enqueue (control_taken name)) taking.conns c
            (after_taking fresh there ne))
      ∙ ap some (told room)

  still_injects :
      (m : M) (t : Manager M)
      → t.conns old ≡ some taken
      → c.reading ≡ true
      → c.open_conn ≡ true
      → (step M inject (receives old m) t).injected ≡ (old, m) ∷ t.injected
  unfolding step taken
  still_injects m t e reads up = rw e (rw reads (rw up refl))

  took_control :
      s.conns id ≡ none → (afterwards.current ≡ some id) × (afterwards.injected ≡ s.injected)
  unfolding run step
  took_control fresh = rw fresh (refl, refl)

  -- When a new connection takes control of one that is open and reads, and whose queue has room, it
  -- becomes current, and the evicted one is told who took control and is told to close. But a message
  -- that the evicted one has already received is still given to the injector, even when the handler of the
  -- new connection is done with all that.
  pub evicted_still_injects :
      (m : M)
      → s.current ≡ some old
      → s.conns old ≡ some c
      → s.conns id ≡ none
      → eqb id old ≡ false
      → c.reading ≡ true
      → c.open_conn ≡ true
      → length c.send < send_buffer_size
      → (afterwards.current ≡ some id)
        × (afterwards.conns old
            ≡ some (record c { send = c.send ++ control_taken name ∷ []; closed = true }))
        × ((step M inject (receives old m) afterwards).injected ≡ (old, m) ∷ s.injected)
  unfolding taken
  evicted_still_injects m cur there fresh ne reads up room = (
    (took_control fresh).0,
    evicted_conns fresh there ne room,
    still_injects m afterwards (evicted_conns fresh there ne room) reads up
        ∙ ap (λ i. (old, m) ∷ i) (took_control fresh).1,
  )
