-- ===== src/Transfer/StreamServer/OneTask.antt =====
-- No connection has two tasks, in any interleaving (src/transfer/tcp/TransferServer.cpp).
use asinc_roulette.Base.{
  ℕ, ◌+◌, ◌≤◌, ◌<◌, ◌^◌, ◌≡◌, refl, Bool, true, false, nat_eq, ◌∷◌, some, Option-cases, Bool-cases,
  arith, contains, inl, inr, if◌then◌else◌,
}
use asinc_roulette.Base.Counting.{count, count-some, count-erase_key, count-emplace}
use asinc_roulette.Base.Map.{lookup, insert, lookup-insert}
use asinc_roulette.Failure.{ok}
use asinc_roulette.Stateful.{Action}
use asinc_roulette.Transfer.Framing.{Bytes}
use asinc_roulette.Transfer.StreamServer.State.{
  StreamSocket, Connection, connected, TransferServer, Events, change, is_free,
}
use asinc_roulette.Transfer.StreamServer.Connections.{
  stop, mark_closed, unsafe_kill, entered, handle_new_connection, on_socket, send,
}
use asinc_roulette.Transfer.StreamServer.Pool.{handle_connection, finish}
use asinc_roulette.Transfer.StreamServer.Steps.{
  Step, Reach, accepting, enqueueing, marking, killing, updating, receiving, finishing, sending,
  stopping, computing, here, next,
}
use asinc_roulette.Transfer.StreamServer.Orderly.{
  IsOrderly, Quiet, Quiet-IsOrderly, Quiet-same, Quiet-insert, Quiet-change, Quiet-erase,
}

module _ {K W : Type 0} ⦃net : StreamSocket K⦄ where
  on_socket-Quiet :
      {A : Type 0} (id : ℕ) (m : Action K A) (s : TransferServer K W) → Quiet s (on_socket id m s).1
  unfolding on_socket
  on_socket-Quiet id m s = elim (Option-cases (lookup id s.heap)) [
    | inl missing ↦ rw (on_socket, missing) (Quiet-same s)
    | inr (c, look) ↦
        rw (on_socket, look) (Quiet-insert id c (record c { socket = (m c.socket).1 }) s look refl)
  ]

  send-Quiet : (id : ℕ) (m : Bytes) (s : TransferServer K W) → Quiet s (send id m s).1
  unfolding send
  send-Quiet id m s = elim (Bool-cases (contains id s.connections)) [
    | inl there ↦ rw (send, there) (on_socket-Quiet id (net.send m) s)
    | inr missing ↦ rw (send, missing) (Quiet-same s)
  ]

  kill-Quiet :
      (events : Events W) (id : ℕ) (s : TransferServer K W) → Quiet s (unsafe_kill events id s).1
  unfolding unsafe_kill
  kill-Quiet events id s = elim (Bool-cases (contains id s.connections)) [
    | inl there ↦
        rw (unsafe_kill, there)
          (Quiet-erase id (events.disconnect_handle id s.app).1 s _ (
            Quiet-change id (λ c. record c { socket = net.close (net.shutdown c.socket) }) s
              (λ c. refl)))
    | inr missing ↦ rw (unsafe_kill, missing) (Quiet-same s)
  ]

  tasked-IsOrderly :
      (id : ℕ) (c : Connection K) (s : TransferServer K W)
      → lookup id s.heap ≡ some c
      → c.free ≡ true
      → IsOrderly s
      → IsOrderly
          (record s { heap = insert id (record c { free = false }) s.heap; tasks = id ∷ s.tasks })
  unfolding is_free count
  tasked-IsOrderly id c s look free h =
      let d : Connection K = record c { free = false } in
      record {
        balanced = λ j.
            ground (
              arith,
              lookup-insert id j d s.heap,
              nat_eq.beq_iff j id,
              h.balanced id,
              h.balanced j,
            );
        fresh =
            λ j le. ground (arith, lookup-insert id j d s.heap, nat_eq.beq_iff j id, h.fresh j le);
        stored =
            λ j c. ground (arith, lookup-insert id j d s.heap, nat_eq.beq_iff j id, h.stored j c);
        distinct = h.distinct;
      }

  enqueue-IsOrderly :
      (id : ℕ) (s : TransferServer K W) → IsOrderly s → IsOrderly (handle_connection id s)
  unfolding handle_connection
  enqueue-IsOrderly id s h = elim (Option-cases (lookup id s.heap)) [
    | inl missing ↦ rw (handle_connection, missing) h
    | inr (c, look) ↦ elim (Bool-cases c.free) [
      | inl free ↦ rw (handle_connection, look, free) (tasked-IsOrderly id c s look free h)
      | inr busy ↦ rw (handle_connection, look, busy) h
    ]
  ]

  pub finish-IsOrderly :
      (id : ℕ) (close : Bool) (s : TransferServer K W)
      → 1 ≤ count id s.tasks
      → IsOrderly s
      → IsOrderly (finish id close s)
  unfolding finish change is_free
  finish-IsOrderly id close s busy h = elim (Option-cases (lookup id s.heap)) [
    | inl missing ↦ absurd (ground (arith, h.balanced id))
    | inr (c, look) ↦
        let d : Connection K = record {
          id = c.id;
          close = close;
          free = true;
          socket = if close then net.shutdown c.socket else c.socket;
        } in
        rw (finish, change, look)
          (record {
            balanced = λ j. ground (
              arith,
              lookup-insert id j d s.heap,
              nat_eq.beq_iff j id,
              count-erase_key j id s.tasks,
              h.balanced j,
            );
            fresh = λ j le.
                ground (arith, lookup-insert id j d s.heap, nat_eq.beq_iff j id, h.fresh j le);
            stored = λ j c.
                ground (arith, lookup-insert id j d s.heap, nat_eq.beq_iff j id, h.stored j c);
            distinct = h.distinct;
          })
  ]

  app-IsOrderly : (w : W) (s : TransferServer K W) → IsOrderly s → IsOrderly (record s { app = w })
  unfolding is_free
  app-IsOrderly w s h = record {
    balanced = h.balanced;
    fresh = h.fresh;
    stored = h.stored;
    distinct = h.distinct;
  }

  stop-IsOrderly : (s : TransferServer K W) → IsOrderly s → IsOrderly (stop s)
  unfolding stop is_free
  stop-IsOrderly s h = record {
    balanced = h.balanced;
    fresh = h.fresh;
    stored = h.stored;
    distinct = h.distinct;
  }

  -- The next id has no connection.
  new_id : (s : TransferServer K W) → IsOrderly s → contains s.max_id s.connections ≡ false
  new_id s h = elim (Bool-cases (contains s.max_id s.connections)) [
    | inl there ↦ absurd (
        ground (
          arith,
          h.stored s.max_id (count-some s.max_id s.connections there),
          h.fresh s.max_id (omega arith),
        ))
    | inr missing ↦ missing
  ]

  entered-IsOrderly :
      (client : K) (s : TransferServer K W)
      → s.max_id + 1 < 2 ^ 64
      → IsOrderly s
      → IsOrderly (entered s.max_id client s)
  unfolding is_free
  entered-IsOrderly client s few h =
      let new = connected s.max_id client in
      record {
        balanced = λ j. ground (
          arith,
          lookup-insert s.max_id j new s.heap,
          nat_eq.beq_iff j s.max_id,
          h.balanced j,
          h.fresh s.max_id (omega arith),
        );
        fresh = λ j le. ground (
          arith,
          lookup-insert s.max_id j new s.heap,
          nat_eq.beq_iff j s.max_id,
          h.fresh j (omega arith),
        );
        stored = λ j c. ground (
          arith,
          lookup-insert s.max_id j new s.heap,
          nat_eq.beq_iff j s.max_id,
          count-emplace j s.max_id s.connections (new_id s h),
          h.stored j,
        );
        distinct =
            λ j. ground (arith, count-emplace j s.max_id s.connections (new_id s h), h.distinct j);
      }

  accept-IsOrderly :
      (events : Events W) (client : K) (adds : Bool) (s : TransferServer K W)
      → s.max_id + 1 < 2 ^ 64
      → IsOrderly s
      → IsOrderly (handle_new_connection events (ok client) adds s).1
  unfolding handle_new_connection
  accept-IsOrderly events client true s few h =
      app-IsOrderly (events.connect_handle s.max_id s.app).1 (entered s.max_id client s)
        (entered-IsOrderly client s few h)
  accept-IsOrderly events client false s few h = entered-IsOrderly client s few h

module _ {K W : Type 0} ⦃net : StreamSocket K⦄ (events : Events W) where
  Step-IsOrderly : {s t : TransferServer K W} → Step events s t → IsOrderly s → IsOrderly t
  unfolding mark_closed stop
  Step-IsOrderly (accepting client adds s few new) h = accept-IsOrderly events client adds s few h
  Step-IsOrderly (enqueueing id s) h = enqueue-IsOrderly id s h
  Step-IsOrderly (marking id s) h =
      Quiet-IsOrderly s _ (Quiet-change id (λ c. record c { close = true }) s (λ c. refl)) h
  Step-IsOrderly (killing id s) h = Quiet-IsOrderly s _ (kill-Quiet events id s) h
  Step-IsOrderly (updating id s busy) h = Quiet-IsOrderly s _ (on_socket-Quiet id net.update s) h
  Step-IsOrderly (receiving id s busy) h = Quiet-IsOrderly s _ (on_socket-Quiet id net.receive s) h
  Step-IsOrderly (finishing id close s busy) h = finish-IsOrderly id close s busy h
  Step-IsOrderly (sending id m s) h = Quiet-IsOrderly s _ (send-Quiet id m s) h
  Step-IsOrderly (stopping s) h = stop-IsOrderly s h
  Step-IsOrderly (computing w s) h = app-IsOrderly w s h

  -- However the threads of one run interleave, from an orderly state, such as that of a new server: a
  -- connection that is free has no task and any other has exactly one, the ids of new connections
  -- were never given before, and a connection is listed once and has its object.
  pub one_task : {s t : TransferServer K W} → IsOrderly s → Reach events s t → IsOrderly t
  one_task h here = h
  one_task h (next r st) = Step-IsOrderly st (one_task h r)
