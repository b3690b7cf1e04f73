-- ===== src/Transfer/StreamServer/Mild.antt =====
-- Steps that keep the descriptors of the connections (src/transfer/tcp/TransferServer.cpp).
use asinc_roulette.Base.{
  ℕ, ◌≡◌, refl, sym, ap, ◌∙◌, Bool, true, false, nat_eq, List, ◌==◌, some, Option-cases, Bool-cases,
  arith, contains, erase_key, inl, inr, if◌then◌else◌,
}
use asinc_roulette.Base.Counting.{contains-erase_key_eq}
use asinc_roulette.Base.Map.{Map, lookup, insert, lookup-insert}
use asinc_roulette.Stateful.{Action}
use asinc_roulette.Transfer.Framing.{Bytes}
use asinc_roulette.Transfer.StreamServer.State.{
  StreamSocket, KeepsDescriptor, Connection, TransferServer, Events, change,
}
use asinc_roulette.Transfer.StreamServer.Connections.{unsafe_kill, on_socket, send}
use asinc_roulette.Transfer.StreamServer.Pool.{handle_connection, finish}

module _ {K : Type 0} ⦃net : StreamSocket K⦄ where
  -- Another object of the same descriptor under an id.
  pub insert-same :
      (id : ℕ) (c d : Connection K) (m : Map ℕ (Connection K))
      → lookup id m ≡ some c
      → net.get_descriptor d.socket ≡ net.get_descriptor c.socket
      → (j : ℕ) (x : Connection K) → lookup j (insert id d m) ≡ some x
      → (c : Connection K) × (lookup j m ≡ some c)
        × (net.get_descriptor x.socket ≡ net.get_descriptor c.socket)
  insert-same id c d m look fd j x found = elim (Bool-cases (j == id)) [
    | inl hit ↦
        let same : d ≡ x = ground (arith, lookup-insert id j d m) in
        (
          c,
          ground (arith, nat_eq.beq_iff j id),
          ap (λ (y : Connection K). net.get_descriptor y.socket) (sym same) ∙ fd,
        )
    | inr miss ↦ (x, ground (arith, lookup-insert id j d m), refl)
  ]

module _ {K W : Type 0} ⦃net : StreamSocket K⦄ where
  -- The descriptor of every connection leads to its id.
  pub record IsIndexed (s : TransferServer K W) : Type 0 where
    pub leads :
        (id : ℕ) (c : Connection K)
        → contains id s.connections ≡ true
        → lookup id s.heap ≡ some c
        → lookup (net.get_descriptor c.socket) s.descriptors ≡ some id

  -- A step that keeps the descriptors, and loses connections at most.
  pub record Mild (s t : TransferServer K W) : Type 0 where
    pub descriptors : t.descriptors ≡ s.descriptors
    pub fewer : (id : ℕ) → contains id t.connections ≡ true → contains id s.connections ≡ true
    pub same :
        (id : ℕ) (d : Connection K)
        → lookup id t.heap ≡ some d
        → (c : Connection K) × (lookup id s.heap ≡ some c)
          × (net.get_descriptor d.socket ≡ net.get_descriptor c.socket)

  pub Mild-IsIndexed : (s t : TransferServer K W) → Mild s t → IsIndexed s → IsIndexed t
  Mild-IsIndexed s t m h = record {
    leads = λ id d there look.
        let (c, look', fd) = m.same id d look in
        ap (λ x. lookup x t.descriptors) fd
        ∙ ap (lookup (net.get_descriptor c.socket)) m.descriptors
        ∙ h.leads id c (m.fewer id there) look';
  }

  pub Mild-same : (s : TransferServer K W) → Mild s s
  Mild-same s = record {
    descriptors = refl;
    fewer = λ id there. there;
    same = λ id d look. (d, look, refl);
  }

  pub Mild-change :
      (id : ℕ) (f : Connection K → Connection K) (s : TransferServer K W)
      → ((c : Connection K) → net.get_descriptor (f c).socket ≡ net.get_descriptor c.socket)
      → Mild s (change id f s)
  unfolding change
  Mild-change id f s keeps = elim (Option-cases (lookup id s.heap)) [
    | inl missing ↦ rw (change, missing) (Mild-same s)
    | inr (c, look) ↦
        rw (change, look)
          (record {
            descriptors = refl;
            fewer = λ j there. there;
            same = insert-same id c (f c) s.heap look (keeps c);
          })
  ]

  -- The same with other tasks, another `app` and without a connection.
  pub Mild-tasks :
      (tasks : List ℕ) (s t : TransferServer K W) → Mild s t → Mild s (record t { tasks = tasks })
  Mild-tasks tasks s t m = record { descriptors = m.descriptors; fewer = m.fewer; same = m.same }

  pub Mild-app : (w : W) (s t : TransferServer K W) → Mild s t → Mild s (record t { app = w })
  Mild-app w s t m = record { descriptors = m.descriptors; fewer = m.fewer; same = m.same }

  pub Mild-erase :
      (id : ℕ) (s t : TransferServer K W)
      → Mild s t
      → Mild s (record t { connections = erase_key id s.connections })
  Mild-erase id s t m = record {
    descriptors = m.descriptors;
    fewer = λ j there. ground (arith, contains-erase_key_eq id j s.connections);
    same = m.same;
  }

  module _ (keeps : KeepsDescriptor net) where
    pub on_socket-Mild :
        {A : Type 0} (id : ℕ) (m : Action K A) (s : TransferServer K W)
        → ((k : K) → net.get_descriptor (m k).1 ≡ net.get_descriptor k)
        → Mild s (on_socket id m s).1
    unfolding on_socket
    on_socket-Mild id m s same = elim (Option-cases (lookup id s.heap)) [
      | inl missing ↦ rw (on_socket, missing) (Mild-same s)
      | inr (c, look) ↦
          rw (on_socket, look)
            (record {
              descriptors = refl;
              fewer = λ j there. there;
              same =
                  insert-same id c (record c { socket = (m c.socket).1 }) s.heap look
                    (same c.socket);
            })
    ]

    pub send-Mild : (id : ℕ) (m : Bytes) (s : TransferServer K W) → Mild s (send id m s).1
    unfolding send
    send-Mild id m s = elim (Bool-cases (contains id s.connections)) [
      | inl there ↦ rw (send, there) (on_socket-Mild id (net.send m) s (keeps.send m))
      | inr missing ↦ rw (send, missing) (Mild-same s)
    ]

    pub kill-Mild :
        (events : Events W) (id : ℕ) (s : TransferServer K W) → Mild s (unsafe_kill events id s).1
    unfolding unsafe_kill
    kill-Mild events id s = elim (Bool-cases (contains id s.connections)) [
      | inl there ↦
          rw (unsafe_kill, there)
            (Mild-app (events.disconnect_handle id s.app).1 s _ (
              Mild-erase id s _ (
                Mild-change id (λ c. record c { socket = net.close (net.shutdown c.socket) }) s
                  (λ c. keeps.close (net.shutdown c.socket) ∙ keeps.shutdown c.socket))))
      | inr missing ↦ rw (unsafe_kill, missing) (Mild-same s)
    ]

    pub enqueue-Mild : (id : ℕ) (s : TransferServer K W) → Mild s (handle_connection id s)
    unfolding handle_connection
    enqueue-Mild id s = elim (Option-cases (lookup id s.heap)) [
      | inl missing ↦ rw (handle_connection, missing) (Mild-same s)
      | inr (c, look) ↦ elim (Bool-cases c.free) [
        | inl free ↦
            rw (handle_connection, look, free)
              (record {
                descriptors = refl;
                fewer = λ j there. there;
                same = insert-same id c (record c { free = false }) s.heap look refl;
              })
        | inr busy ↦ rw (handle_connection, look, busy) (Mild-same s)
      ]
    ]

    pub finish-Mild : (id : ℕ) (close : Bool) (s : TransferServer K W) → Mild s (finish id close s)
    unfolding finish
    finish-Mild id close s = Mild-tasks (erase_key id s.tasks) s _ (
        Mild-change id
          (λ c. record c {
            close = close;
            free = true;
            socket = if close then net.shutdown c.socket else c.socket;
          })
          s (λ c. shut_or_not close c))
      where
        shut_or_not :
            (close : Bool) (c : Connection K)
            → net.get_descriptor (if close then net.shutdown c.socket else c.socket)
              ≡ net.get_descriptor c.socket
        shut_or_not true c = keeps.shutdown c.socket
        shut_or_not false c = refl
