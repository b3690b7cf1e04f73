-- ===== src/Transfer/StreamServer/Descriptors.antt =====
-- Events reach the connection of their descriptor (src/transfer/tcp/TransferServer.cpp,
-- `connection_by_descriptor`).
use asinc_roulette.Base.{
  ℕ, ◌≡◌, refl, sym, ap, ◌∙◌, Bool, true, false, nat_eq, ◌==◌, some, Bool-cases, arith, contains,
  inl, inr,
}
use asinc_roulette.Base.Counting.{contains-emplace_eq}
use asinc_roulette.Base.Map.{lookup, insert, lookup-insert}
use asinc_roulette.Failure.{ok}
use asinc_roulette.Transfer.StreamServer.State.{
  StreamSocket, KeepsDescriptor, Connection, connected, TransferServer, Events,
}
use asinc_roulette.Transfer.StreamServer.Connections.{
  stop, connection_by_descriptor, mark_closed, entered, handle_new_connection,
}
use asinc_roulette.Transfer.StreamServer.Mild.{
  IsIndexed, Mild-IsIndexed, Mild-change, on_socket-Mild, send-Mild, kill-Mild, enqueue-Mild,
  finish-Mild,
}
use asinc_roulette.Transfer.StreamServer.Steps.{
  IsNewDescriptor, Step, Reach, accepting, enqueueing, marking, killing, updating, receiving,
  finishing, sending, stopping, computing, here, next,
}

module _ {K W : Type 0} ⦃net : StreamSocket K⦄ where
  entered-IsIndexed :
      (client : K) (s : TransferServer K W)
      → IsNewDescriptor client s
      → IsIndexed s
      → IsIndexed (entered s.max_id client s)
  entered-IsIndexed client s new h =
      let id = s.max_id in
      let fresh = connected id client in
      record {
        leads = λ j c there look. elim (Bool-cases (j == id)) [
          | inl hit ↦
              let same : fresh ≡ c = ground (arith, lookup-insert id j fresh s.heap) in
              ap
                (λ (y : Connection K).
                  lookup (net.get_descriptor y.socket)
                    (insert (net.get_descriptor client) id s.descriptors))
                (sym same)
              ∙ ground (
                arith,
                lookup-insert (net.get_descriptor client) (net.get_descriptor client) id
                    s.descriptors,
                nat_eq.beq_iff j id,
              )
          | inr miss ↦
              let there' = contains-emplace_eq id j s.connections there miss in
              let look' : lookup j s.heap ≡ some c =
                ground (arith, lookup-insert id j fresh s.heap) in
              ground (
                arith,
                lookup-insert (net.get_descriptor client) (net.get_descriptor c.socket) id
                    s.descriptors,
                new j c there' look',
                h.leads j c there' look',
              )
        ];
      }

  accept-IsIndexed :
      (events : Events W) (client : K) (adds : Bool) (s : TransferServer K W)
      → IsNewDescriptor client s
      → IsIndexed s
      → IsIndexed (handle_new_connection events (ok client) adds s).1
  unfolding handle_new_connection
  accept-IsIndexed events client true s new h = record {
    leads = (entered-IsIndexed client s new h).leads;
  }
  accept-IsIndexed events client false s new h = entered-IsIndexed client s new h

module _ {K W : Type 0} ⦃net : StreamSocket K⦄ (keeps : KeepsDescriptor net)
    (events : Events W) where
  Step-IsIndexed : {s t : TransferServer K W} → Step events s t → IsIndexed s → IsIndexed t
  unfolding mark_closed stop
  Step-IsIndexed (accepting client adds s few new) h = accept-IsIndexed events client adds s new h
  Step-IsIndexed (enqueueing id s) h = Mild-IsIndexed s _ (enqueue-Mild keeps id s) h
  Step-IsIndexed (marking id s) h =
      Mild-IsIndexed s _ (Mild-change id (λ c. record c { close = true }) s (λ c. refl)) h
  Step-IsIndexed (killing id s) h = Mild-IsIndexed s _ (kill-Mild keeps events id s) h
  Step-IsIndexed (updating id s busy) h =
      Mild-IsIndexed s _ (on_socket-Mild keeps id net.update s keeps.update) h
  Step-IsIndexed (receiving id s busy) h =
      Mild-IsIndexed s _ (on_socket-Mild keeps id net.receive s keeps.receive) h
  Step-IsIndexed (finishing id close s busy) h = Mild-IsIndexed s _ (finish-Mild keeps id close s) h
  Step-IsIndexed (sending id m s) h = Mild-IsIndexed s _ (send-Mild keeps id m s) h
  Step-IsIndexed (stopping s) h = record { leads = h.leads }
  Step-IsIndexed (computing w s) h = record { leads = h.leads }

  Reach-IsIndexed : {s t : TransferServer K W} → IsIndexed s → Reach events s t → IsIndexed t
  Reach-IsIndexed h here = h
  Reach-IsIndexed h (next r st) = Step-IsIndexed st (Reach-IsIndexed h r)

  -- However the threads interleave, as long as no step changes the descriptor of a socket and the
  -- system gives out no open descriptor again: the descriptor of a connection leads to that
  -- connection, so that its events reach it, although entries of closed connections stay.
  pub connection_found :
      {s t : TransferServer K W}
      → IsIndexed s
      → Reach events s t
      → (id : ℕ) (c : Connection K) → contains id t.connections ≡ true
      → lookup id t.heap ≡ some c
      → connection_by_descriptor (net.get_descriptor c.socket) t ≡ ok id
  unfolding connection_by_descriptor
  connection_found {s} {t} h r id c there look =
      rw (connection_by_descriptor, (Reach-IsIndexed h r).leads id c there look, there) refl
