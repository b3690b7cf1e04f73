-- ===== src/Transfer/StreamServer/Reaping.antt =====
-- The end of connections (src/transfer/tcp/TransferServer.cpp, `unsafe_kill`,
-- `disconnect_unavailable_connections`, `disconnect_connections`).
use asinc_roulette.Base.{
  ℕ, ◌≤◌, ◌≡◌, refl, sym, ap, subst, ◌∙◌, true, false, not, ◌&&◌, nat_eq, List, [], ◌∷◌, ◌==◌,
  Option, none, some, Option-cases, Bool-cases, arith, contains, erase_key, inl, inr, if◌then◌else◌,
}
use asinc_roulette.Base.Counting.{
  count, count-some, contains-count, count-erase_key, those, those-same, count-those,
  contains-erase_key_eq,
}
use asinc_roulette.Base.Map.{lookup, lookup-insert}
use asinc_roulette.Failure.{Result, ok, err}
use asinc_roulette.Stateful.{Action, continue, for_each}
use asinc_roulette.Transfer.StreamServer.State.{
  StreamSocket, Connection, TransferServer, Events, change, is_closed,
}
use asinc_roulette.Transfer.StreamServer.Orderly.{IsOrderly}
use asinc_roulette.Transfer.StreamServer.Connections.{
  unsafe_kill, kill_if_closed, disconnect_connections, disconnect_unavailable_connections,
}

module _ {K : Type 0} ⦃net : StreamSocket K⦄ where
  -- The end of a connection's socket.
  abbrev pub shut : Connection K → Connection K
  shut c = record c { socket = net.close (net.shutdown c.socket) }

  abbrev pub shut_object : Option (Connection K) → Option (Connection K)
  shut_object none = none
  shut_object (some c) = some (shut c)

module _ {K W : Type 0} ⦃net : StreamSocket K⦄ where
  lookup-change :
      (id j : ℕ) (s : TransferServer K W)
      → lookup j (change id shut s).heap
        ≡ (if j == id then shut_object (lookup j s.heap) else lookup j s.heap)
  unfolding change
  lookup-change id j s = elim (Option-cases (lookup id s.heap)) [
    | inl missing ↦ rw (change, missing) (ground (arith, nat_eq.beq_iff j id))
    | inr (c, look) ↦
        rw (change, look) (ground (arith, lookup-insert id j (shut c) s.heap, nat_eq.beq_iff j id))
  ]

module _ {W : Type 0} (events : Events W) where
  -- The derived class is told of the ids, in this order.
  abbrev pub told : List ℕ → W → W
  told [] w = w
  told (id ∷ ids) w = told ids (events.disconnect_handle id w).1

module _ {K W : Type 0} ⦃net : StreamSocket K⦄ (events : Events W) where
  -- One connection that is there is closed, and its id is told.
  abbrev pub killed : ℕ → TransferServer K W → TransferServer K W
  killed id s =
      let s' = change id shut s in
      record s' {
        connections = erase_key id s.connections;
        app = (events.disconnect_handle id s.app).1;
      }

  pub kill-there :
      (id : ℕ) (s : TransferServer K W)
      → contains id s.connections ≡ true
      → unsafe_kill events id s ≡ ((events.disconnect_handle id s.app).0, killed id s)
  unfolding unsafe_kill
  kill-there id s there = rw (unsafe_kill, there) refl

  pub kill-missing :
      (id : ℕ) (s : TransferServer K W)
      → contains id s.connections ≡ false
      → unsafe_kill events id s ≡ (ok tt, s)
  unfolding unsafe_kill
  kill-missing id s missing = rw (unsafe_kill, missing) refl

  killed-is_closed : (id j : ℕ) (s : TransferServer K W) → is_closed j (killed id s) ≡ is_closed j s
  unfolding is_closed
  killed-is_closed id j s = ground (arith, lookup-change id j s, nat_eq.beq_iff j id)

  kill-is_closed :
      (id j : ℕ) (s : TransferServer K W) → is_closed j (unsafe_kill events id s).1 ≡ is_closed j s
  kill-is_closed id j s = elim (Bool-cases (contains id s.connections)) [
    | inl there ↦
        ap (λ (p : Result Unit × TransferServer K W). is_closed j p.1) (kill-there id s there)
        ∙ killed-is_closed id j s
    | inr missing ↦
        ap (λ (p : Result Unit × TransferServer K W). is_closed j p.1) (kill-missing id s missing)
  ]

  -- What a loop that kills has done to a server.
  pub record Reaps (ids : List ℕ) (s : TransferServer K W) (p : Result Unit × TransferServer K W)
      : Type 0 where
    pub succeeds : p.0 ≡ ok tt
    pub connections :
        (j : ℕ) → contains j p.1.connections ≡ (contains j s.connections && not (contains j ids))
    pub objects :
        (j : ℕ)
        → lookup j p.1.heap
          ≡ (if contains j ids then shut_object (lookup j s.heap) else lookup j s.heap)
    pub app : p.1.app ≡ told events ids s.app

  first_there :
      (id : ℕ) (ids : List ℕ) (s : TransferServer K W)
      → ((j : ℕ) → count j (id ∷ ids) ≤ count j s.connections)
      → contains id s.connections ≡ true
  unfolding count
  first_there id ids s there =
      contains-count id s.connections (ground (arith, there id, nat_eq.beq_iff id id))

  first_new :
      (id : ℕ) (ids : List ℕ) (s : TransferServer K W)
      → ((j : ℕ) → count j (id ∷ ids) ≤ count j s.connections)
      → ((j : ℕ) → count j s.connections ≤ 1)
      → contains id ids ≡ false
  unfolding count
  first_new id ids s there once = elim (Bool-cases (contains id ids)) [
    | inl again ↦
        absurd (ground (arith, there id, once id, nat_eq.beq_iff id id, count-some id ids again))
    | inr new ↦ new
  ]

  kill_each-cons :
      (never : (id : ℕ) (w : W) → (events.disconnect_handle id w).0 ≡ ok tt) (id : ℕ) (ids : List ℕ)
      (s : TransferServer K W)
      → contains id s.connections ≡ true
      → for_each (unsafe_kill events) (id ∷ ids) s ≡ for_each (unsafe_kill events) ids (killed id s)
  unfolding for_each
  kill_each-cons never id ids s there =
      ap
        (λ (p : Result Unit × TransferServer K W).
          continue p.0 (λ _. for_each (unsafe_kill events) ids) p.1)
        (kill-there id s there)
      ∙ ap (λ r. continue r (λ _. for_each (unsafe_kill events) ids) (killed id s)) (never id s.app)

  Reaps-cons :
      (id : ℕ) (ids : List ℕ) (s : TransferServer K W) (p : Result Unit × TransferServer K W)
      → contains id ids ≡ false
      → Reaps ids (killed id s) p
      → Reaps (id ∷ ids) s p
  unfolding contains
  Reaps-cons id ids s p new h = record {
    succeeds = h.succeeds;
    connections = λ j. ground (arith, h.connections j, contains-erase_key_eq id j s.connections);
    objects = λ j. ground (arith, h.objects j, lookup-change id j s, nat_eq.beq_iff j id);
    app = h.app;
  }

  kill_each-Reaps :
      (never : (id : ℕ) (w : W) → (events.disconnect_handle id w).0 ≡ ok tt) (ids : List ℕ)
      (s : TransferServer K W)
      → ((j : ℕ) → count j ids ≤ count j s.connections)
      → ((j : ℕ) → count j s.connections ≤ 1)
      → Reaps ids s (for_each (unsafe_kill events) ids s)
  unfolding for_each contains count
  kill_each-Reaps never [] s there once = record {
    succeeds = refl;
    connections = λ j. ground arith;
    objects = λ j. refl;
    app = refl;
  }
  kill_each-Reaps never (id ∷ ids) s there once =
      subst (Reaps (id ∷ ids) s) (sym (kill_each-cons never id ids s (first_there id ids s there)))
        (Reaps-cons id ids s _ (first_new id ids s there once) (
          kill_each-Reaps never ids (killed id s)
            (λ j.
              ground
                (arith, there j, once j, count-erase_key j id s.connections, nat_eq.beq_iff j id))
            (λ j. ground (arith, once j, count-erase_key j id s.connections))))

  continue-same :
      (r : Result Unit) (f g : Action (TransferServer K W) Unit) (s : TransferServer K W)
      → f s ≡ g s
      → continue r (λ _. f) s ≡ continue r (λ _. g) s
  continue-same (ok a) f g s same = same
  continue-same (err e) f g s same = refl

  -- The loop over all connections kills those that are marked, as they were before it.
  kill_marked :
      (ids : List ℕ) (s : TransferServer K W)
      → for_each (kill_if_closed events) ids s
        ≡ for_each (unsafe_kill events) (those (λ id. is_closed id s) ids) s
  unfolding for_each
  kill_marked [] s = refl
  kill_marked (id ∷ ids) s = elim (Bool-cases (is_closed id s)) [
    | inl marked ↦
        let s' = (unsafe_kill events id s).1 in
        rw marked (
          continue-same (unsafe_kill events id s).0 _ _ s' (
            kill_marked ids s'
            ∙ ap (λ xs. for_each (unsafe_kill events) xs s')
                (those-same (λ j. is_closed j s') (λ j. is_closed j s) ids
                  (λ j. kill-is_closed id j s))))
    | inr unmarked ↦ rw unmarked (kill_marked ids s)
  ]

  -- If disconnect_handle does not throw, the pass over the connections disconnects exactly those
  -- that are marked: they leave the list and their sockets are closed, the handler is told of each
  -- of them once and in order, and the objects of all others stay as they are.
  pub disconnect_unavailable-Reaps :
      (never : (id : ℕ) (w : W) → (events.disconnect_handle id w).0 ≡ ok tt)
      (s : TransferServer K W)
      → IsOrderly s
      → Reaps
          (those (λ id. is_closed id s) s.connections)
          s
          (disconnect_unavailable_connections events s)
  unfolding disconnect_unavailable_connections
  disconnect_unavailable-Reaps never s h =
      subst (Reaps (those (λ id. is_closed id s) s.connections) s)
        (sym (kill_marked s.connections s))
        (kill_each-Reaps never (those (λ id. is_closed id s) s.connections) s
          (λ j. count-those (λ id. is_closed id s) j s.connections) h.distinct)

  -- If disconnect_handle does not throw, the end of the loop of events disconnects every
  -- connection, and tells the handler of each of them once and in order.
  pub disconnect_connections-Reaps :
      (never : (id : ℕ) (w : W) → (events.disconnect_handle id w).0 ≡ ok tt)
      (s : TransferServer K W)
      → IsOrderly s
      → Reaps s.connections s (disconnect_connections events s)
  unfolding disconnect_connections
  disconnect_connections-Reaps never s h =
      kill_each-Reaps never s.connections s (λ j. omega arith) h.distinct
