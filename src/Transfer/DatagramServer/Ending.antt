-- ===== src/Transfer/DatagramServer/Ending.antt =====
-- The end of the connections (src/transfer/udp/TransferServer.cpp, `unsafe_kill`,
-- `disconnect_connections`).
use asinc_roulette.Base.{
  ℕ, zero, suc, ◌≤◌, ◌≡◌, refl, sym, ap, ◌∙◌, subst, true, false, nat_eq, List, [], ◌∷◌, ◌==◌,
  Option, none, some, Option-cases, arith, contains, length, inl, inr, if◌then◌else◌,
}
use asinc_roulette.Base.Map.{Map, lookup, member, insert, erase, lookup-insert, lookup-erase}
use asinc_roulette.Failure.{Result, ok, err, socket_error}
use asinc_roulette.Transfer.DatagramServer.State.{
  DatagramSocket, Connection, TransferServer, Events, on_socket,
}
use asinc_roulette.Transfer.DatagramServer.Connections.{
  ids, unsafe_kill, kill_loop, disconnect_connections,
}

length-ids : (m : Map ℕ ℕ) → length (ids m) ≤ length m
length-ids [] = omega arith
length-ids (en ∷ m) = omega (arith, length-ids m)

contains-ids : (j : ℕ) (m : Map ℕ ℕ) → member j m ≡ true → contains j (ids m) ≡ true
unfolding contains lookup
contains-ids j [] there = there
contains-ids j ((id, p) ∷ m) there = ground (arith, contains-ids j m)

module _ {K W : Type 0} where
  -- Every connection has its object.
  abbrev pub IsStored : TransferServer K W → Type 0
  IsStored s = (id p : ℕ) → lookup id s.connections ≡ some p → member p s.heap ≡ true

  -- What the loop has done when it ends without an exception and no connection is left.
  abbrev pub IsOver : Option (Result Unit × TransferServer K W) → Type 0
  IsOver o =
      (p : Result Unit × TransferServer K W) × (o ≡ some p)
      × (p.0 ≡ ok tt)
      × ((j : ℕ) → lookup j p.1.connections ≡ none)

module _ {K W : Type 0} ⦃net : DatagramSocket K⦄ (events : Events W) where
  -- What the loop over all connections does with the outcome of one `unsafe_kill`.
  abbrev go_on :
      ℕ → ℕ → List ℕ → Result Unit × TransferServer K W → Option (Result Unit × TransferServer K W)
  go_on rounds id rest (r, s) =
      let left = if member id s.connections then id ∷ rest else rest in
      elim r [ err e ↦ some (err e, s) | ok _ ↦ kill_loop events (λ id' s'. true) rounds left s ]

  kill_loop-cons :
      (rounds id : ℕ) (rest : List ℕ) (s : TransferServer K W)
      → kill_loop events (λ id' s'. true) (suc rounds) (id ∷ rest) s
        ≡ go_on rounds id rest (unsafe_kill events id s)
  unfolding kill_loop
  kill_loop-cons rounds id rest s = refl

  kill-fails :
      (fails : (k : K) → (net.close k).0 ≡ err socket_error) (id p : ℕ) (s : TransferServer K W)
      (c : Connection K)
      → lookup id s.connections ≡ some p
      → lookup p s.heap ≡ some c
      → unsafe_kill events id s ≡ (
        ok tt,
        record s { heap = insert p (record c { socket = (net.close c.socket).1 }) s.heap },
      )
  unfolding unsafe_kill on_socket
  kill-fails fails id p s c entry object =
      rw (unsafe_kill, entry, on_socket, object, fails c.socket) refl

  kill_loop-stuck :
      (fails : (k : K) → (net.close k).0 ≡ err socket_error) (rounds id p : ℕ) (rest : List ℕ)
      (s : TransferServer K W)
      → lookup id s.connections ≡ some p
      → member p s.heap ≡ true
      → kill_loop events (λ id' s'. true) rounds (id ∷ rest) s ≡ none
  unfolding kill_loop
  kill_loop-stuck fails zero id p rest s entry object = refl
  kill_loop-stuck fails (suc rounds) id p rest s entry object =
      elim (Option-cases (lookup p s.heap)) [
        | inl missing ↦ absurd (ground arith)
        | inr (c, look) ↦
            let d : Connection K = record c { socket = (net.close c.socket).1 } in
            let s' : TransferServer K W = record s { heap = insert p d s.heap } in
            kill_loop-cons rounds id rest s
            ∙ ap (go_on rounds id rest) (kill-fails fails id p s c entry look)
            ∙ ap
                (λ (o : Option ℕ).
                  kill_loop events (λ id' s''. true) rounds
                    (if elim o [ none ↦ false | some _ ↦ true ] then id ∷ rest else rest) s')
                entry
            ∙ kill_loop-stuck fails rounds id p rest s' entry
                (ground (arith, lookup-insert p p d s.heap))
      ]

  -- If the sockets fail to close, as they do when the network is down, and the first connection
  -- has its object, disconnect_connections does not end, however many rounds its loop makes.
  pub closing_never_ends :
      (fails : (k : K) → (net.close k).0 ≡ err socket_error) (id p : ℕ) (m : Map ℕ ℕ)
      (s : TransferServer K W)
      → s.connections ≡ (id, p) ∷ m
      → member p s.heap ≡ true
      → (rounds : ℕ) → disconnect_connections events rounds s ≡ none
  unfolding disconnect_connections lookup
  closing_never_ends fails id p m s first object rounds =
      ap (λ (x : Map ℕ ℕ). kill_loop events (λ id' s'. true) rounds (ids x) s) first
      ∙ kill_loop-stuck fails rounds id p (ids m) s
          (ap (lookup id) first ∙ ground (arith, nat_eq.beq_iff id id)) object

  -- Without failures a connection that is killed is gone, and the others are as they were.
  record Gone (id : ℕ) (s : TransferServer K W) (p : Result Unit × TransferServer K W)
      : Type 0 where
    succeeds : p.0 ≡ ok tt
    entries :
        (j : ℕ) → lookup j p.1.connections ≡ (if j == id then none else lookup j s.connections)
    objects : (q : ℕ) → member q p.1.heap ≡ member q s.heap

  module _ (closes : (k : K) → (net.close k).0 ≡ ok tt)
      (never : (id : ℕ) (w : W) → (events.disconnect_handle id w).0 ≡ ok tt) where
    kill-there :
        (id p : ℕ) (s : TransferServer K W) (c : Connection K)
        → lookup id s.connections ≡ some p
        → lookup p s.heap ≡ some c
        → unsafe_kill events id s ≡ (
          ok tt,
          record s {
            connections = erase id s.connections;
            heap = insert p (record c { socket = (net.close c.socket).1 }) s.heap;
            app = (events.disconnect_handle id s.app).1;
          },
        )
    unfolding unsafe_kill on_socket
    kill-there id p s c entry object =
        rw (unsafe_kill, entry, on_socket, object, closes c.socket, never id s.app) refl

    kill-missing :
        (id : ℕ) (s : TransferServer K W)
        → lookup id s.connections ≡ none
        → unsafe_kill events id s ≡ (ok tt, s)
    unfolding unsafe_kill
    kill-missing id s entry = rw (unsafe_kill, entry) refl

    kill-Gone : (id : ℕ) (s : TransferServer K W) → IsStored s → Gone id s (unsafe_kill events id s)
    kill-Gone id s h = elim (Option-cases (lookup id s.connections)) [
      | inl missing ↦ subst (Gone id s) (sym (kill-missing id s missing)) (record {
        succeeds = refl;
        entries = λ j. ground (arith, nat_eq.beq_iff j id);
        objects = λ q. refl;
      })
      | inr (p, entry) ↦ elim (Option-cases (lookup p s.heap)) [
        | inl missing ↦ absurd (ground (arith, h id p entry))
        | inr (c, object) ↦
            let d : Connection K = record c { socket = (net.close c.socket).1 } in
            subst (Gone id s) (sym (kill-there id p s c entry object)) (record {
              succeeds = refl;
              entries = λ j. lookup-erase id j s.connections;
              objects = λ q. ground (arith, lookup-insert p q d s.heap, nat_eq.beq_iff q p);
            })
      ]
    ]

    Gone-IsStored :
        (id : ℕ) (s : TransferServer K W) (r : Result Unit × TransferServer K W)
        → Gone id s r
        → IsStored s
        → IsStored r.1
    Gone-IsStored id s r gone h =
        λ j q entry. gone.objects q ∙ h j q (ground (arith, gone.entries j))

    go_on-Gone :
        (rounds id : ℕ) (rest : List ℕ) (s : TransferServer K W)
        (r : Result Unit × TransferServer K W)
        → Gone id s r
        → go_on rounds id rest r ≡ kill_loop events (λ id' s'. true) rounds rest r.1
    go_on-Gone rounds id rest s r gone =
        let left : Option ℕ → List ℕ =
          λ o. if elim o [ none ↦ false | some _ ↦ true ] then id ∷ rest else rest in
        let missing : lookup id r.1.connections ≡ none =
          ground (arith, gone.entries id, nat_eq.beq_iff id id) in
        ap
          (λ (q : Result Unit). elim q [
            | err e ↦ some (err e, r.1)
            | ok _ ↦ kill_loop events (λ id' s'. true) rounds (left (lookup id r.1.connections)) r.1
          ])
          gone.succeeds
        ∙ ap (λ o. kill_loop events (λ id' s'. true) rounds (left o) r.1) missing

    kill_loop-IsOver :
        (rounds : ℕ) (left : List ℕ) (s : TransferServer K W)
        → length left ≤ rounds
        → IsStored s
        → ((j : ℕ) → member j s.connections ≡ true → contains j left ≡ true)
        → IsOver (kill_loop events (λ id' s'. true) rounds left s)
    unfolding kill_loop contains
    kill_loop-IsOver rounds [] s few h all = ((ok tt, s), refl, refl, λ j. ground (arith, all j))
    kill_loop-IsOver zero (id ∷ rest) s few h all = absurd (omega arith)
    kill_loop-IsOver (suc rounds) (id ∷ rest) s few h all =
        let gone = kill-Gone id s h in
        let s' = (unsafe_kill events id s).1 in
        subst IsOver
          (sym (
            kill_loop-cons rounds id rest s
            ∙ go_on-Gone rounds id rest s (unsafe_kill events id s) gone))
          (kill_loop-IsOver rounds rest s' (omega arith)
            (Gone-IsStored id s (unsafe_kill events id s) gone h)
            (λ j there. ground (arith, gone.entries j, all j, nat_eq.beq_iff j id)))

    -- If every connection has its object, sockets close and disconnect_handle does not throw, as
    -- many rounds as there are connections are enough for disconnect_connections to end, without
    -- an exception and with no connection left.
    pub closing_ends :
        (s : TransferServer K W)
        → IsStored s
        → IsOver (disconnect_connections events (length s.connections) s)
    unfolding disconnect_connections
    closing_ends s h =
        kill_loop-IsOver (length s.connections) (ids s.connections) s
          (omega (arith, length-ids s.connections)) h (λ j. contains-ids j s.connections)
