-- ===== src/Transfer/DatagramServer/Connecting.antt =====
-- The connection of an address (src/transfer/udp/TransferServer.cpp, `run`).
use asinc_roulette.Base.{
  ℕ, ◌≡◌, refl, sym, ap, ◌∙◌, subst, Bool, nat_eq, List, [], ◌∷◌, none, some, Option-cases,
  Bool-cases, arith, inl, inr, if◌then◌else◌,
}
use asinc_roulette.Base.Map.{lookup, insert, lookup-insert}
use asinc_roulette.Failure.{Result, ok, err, Result-cases}
use asinc_roulette.Stateful.{Action, continue, for_each}
use asinc_roulette.Transfer.Framing.{Bytes}
use asinc_roulette.Transfer.System.{Address}
use asinc_roulette.Transfer.DatagramServer.State.{
  concat, DatagramSocket, TransferServer, Events, on_socket,
}
use asinc_roulette.Transfer.DatagramServer.Connections.{entered}
use asinc_roulette.Transfer.DatagramServer.Pool.{handle_connection}
use asinc_roulette.Transfer.DatagramServer.Loop.{deliver, handle_datagram}

module _ {K W : Type 0} where
  -- The same connections, and nothing told to the derived class.
  record Settled (s t : TransferServer K W) : Type 0 where
    connections : t.connections ≡ s.connections
    app : t.app ≡ s.app

  handle_connection-Settled : (p : ℕ) (s : TransferServer K W) → Settled s (handle_connection p s)
  unfolding handle_connection
  handle_connection-Settled p s = elim (Option-cases (lookup p s.heap)) [
    | inl missing ↦ rw (handle_connection, missing) (record { connections = refl; app = refl })
    | inr (c, look) ↦ elim (Bool-cases c.free) [
      | inl free ↦ rw (handle_connection, look, free) (record { connections = refl; app = refl })
      | inr busy ↦ rw (handle_connection, look, busy) (record { connections = refl; app = refl })
    ]
  ]

  Settled-same : (s : TransferServer K W) → Settled s s
  Settled-same s = record { connections = refl; app = refl }

  continue-Settled :
      (s t : TransferServer K W) (r : Result Unit) (f : Action (TransferServer K W) Unit)
      → Settled s t
      → Settled s (f t).1
      → Settled s (continue r (λ _. f) t).1
  continue-Settled s t (err e) f stops goes = stops
  continue-Settled s t (ok u) f stops goes = goes

  Settled-trans : (s t u : TransferServer K W) → Settled s t → Settled t u → Settled s u
  Settled-trans s t u a b = record {
    connections = b.connections ∙ a.connections;
    app = b.app ∙ a.app;
  }

module _ {K W : Type 0} ⦃net : DatagramSocket K⦄ where
  on_socket-Settled :
      {A : Type 0} (p : ℕ) (m : Action K A) (s : TransferServer K W) → Settled s (on_socket p m s).1
  unfolding on_socket
  on_socket-Settled p m s = elim (Option-cases (lookup p s.heap)) [
    | inl missing ↦ rw (on_socket, missing) (record { connections = refl; app = refl })
    | inr (c, look) ↦ rw (on_socket, look) (record { connections = refl; app = refl })
  ]

  -- What follows the update of a socket.
  abbrev updated : ℕ → Result Bool → TransferServer K W → Result Unit × TransferServer K W
  updated p (err e) s = (err e, s)
  updated p (ok _) s = elim (lookup p s.heap) [
    | none ↦ (ok tt, s)
    | some c ↦ if net.empty c.socket then (ok tt, s) else (ok tt, handle_connection p s)
  ]

  updated-Settled : (p : ℕ) (r : Result Bool) (s : TransferServer K W) → Settled s (updated p r s).1
  updated-Settled p (err e) s = record { connections = refl; app = refl }
  updated-Settled p (ok b) s = elim (Option-cases (lookup p s.heap)) [
    | inl missing ↦ rw (updated, missing) (record { connections = refl; app = refl })
    | inr (c, look) ↦ elim (Bool-cases (net.empty c.socket)) [
      | inl nothing ↦ rw (updated, look, nothing) (record { connections = refl; app = refl })
      | inr some_message ↦ rw (updated, look, some_message) (handle_connection-Settled p s)
    ]
  ]

  deliver-updated :
      (p : ℕ) (m : Bytes) (s : TransferServer K W)
      → deliver p m s ≡ updated p (on_socket p (net.update m) s).0 (on_socket p (net.update m) s).1
  unfolding deliver
  deliver-updated p m s = elim (Result-cases (on_socket p (net.update m) s).0) [
    | inl (b, e) ↦ rw (deliver, e) refl
    | inr (x, e) ↦ rw (deliver, e) refl
  ]

  deliver-Settled : (p : ℕ) (m : Bytes) (s : TransferServer K W) → Settled s (deliver p m s).1
  deliver-Settled p m s =
      let (r, t) = on_socket p (net.update m) s in
      subst (λ (q : Result Unit × TransferServer K W). Settled s q.1) (sym (deliver-updated p m s))
        (Settled-trans s t (updated p r t).1 (on_socket-Settled p (net.update m) s)
          (updated-Settled p r t))

module _ {K W : Type 0} ⦃net : DatagramSocket K⦄ (events : Events W) (address : Address) where
  known-Settled :
      (p : ℕ) (m : Bytes) (s : TransferServer K W)
      → lookup (concat address) s.connections ≡ some p
      → Settled s (handle_datagram events m address s).1
  unfolding handle_datagram
  known-Settled p m s known = rw (handle_datagram, known) (deliver-Settled p m s)

  known_all-Settled :
      (p : ℕ) (ms : List Bytes) (s : TransferServer K W)
      → lookup (concat address) s.connections ≡ some p
      → Settled s (for_each (λ m. handle_datagram events m address) ms s).1
  unfolding for_each
  known_all-Settled p [] s known = record { connections = refl; app = refl }
  known_all-Settled p (m ∷ ms) s known =
      let t = (handle_datagram events m address s).1 in
      let one = known-Settled p m s known in
      continue-Settled s t (handle_datagram events m address s).0 _ one (
        Settled-trans s t _ one
          (known_all-Settled p ms t (ap (lookup (concat address)) one.connections ∙ known)))

  told-Settled :
      (r : Result Unit) (p : ℕ) (m : Bytes) (s : TransferServer K W)
      → Settled s
          (elim r as (λ _. Result Unit × TransferServer K W) [
            | err e ↦ (err e, s)
            | ok _ ↦ deliver p m s
          ]).1
  told-Settled (err e) p m s = Settled-same s
  told-Settled (ok u) p m s = deliver-Settled p m s

  -- The server with the connection of a new address, of which the handler was told.
  abbrev pub announced : TransferServer K W → TransferServer K W
  announced s =
      let id = concat address in
      record (entered id address s) { app = (events.connect_handle id s.app).1 }

  new-Settled :
      (m : Bytes) (s : TransferServer K W)
      → lookup (concat address) s.connections ≡ none
      → Settled (announced s) (handle_datagram events m address s).1
  unfolding handle_datagram
  new-Settled m s new =
      rw (handle_datagram, new)
        (told-Settled (events.connect_handle (concat address) s.app).0 s.next m (announced s))

  -- However many datagrams arrive from an address that has no connection, and whatever is thrown
  -- meanwhile, it gets one connection, which is told to the derived class once, and all other
  -- connections stay.
  pub connected_once :
      (m : Bytes) (ms : List Bytes) (s : TransferServer K W)
      → lookup (concat address) s.connections ≡ none
      → ((for_each (λ x. handle_datagram events x address) (m ∷ ms) s).1.connections
          ≡ insert (concat address) s.next s.connections)
        × ((for_each (λ x. handle_datagram events x address) (m ∷ ms) s).1.app
            ≡ (events.connect_handle (concat address) s.app).1)
  unfolding for_each
  connected_once m ms s new =
      let id = concat address in
      let t = (handle_datagram events m address s).1 in
      let one = new-Settled m s new in
      let known : lookup id t.connections ≡ some s.next =
        ap (lookup id) one.connections ∙ ground (arith, lookup-insert id id s.next s.connections) in
      let all =
        continue-Settled (announced s) t (handle_datagram events m address s).0 _ one
          (Settled-trans (announced s) t _ one (known_all-Settled s.next ms t known)) in
      (all.connections, all.app)
