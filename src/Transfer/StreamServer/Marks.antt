-- ===== src/Transfer/StreamServer/Marks.antt =====
-- A mark that a task overwrites (src/transfer/tcp/TransferServer.cpp, `run`, `task`).
use asinc_roulette.Base.{
  ℕ, ◌≤◌, ◌≡◌, refl, ap, Bool, true, false, nat_eq, Option-cases, arith, contains, inl, inr,
}
use asinc_roulette.Base.Counting.{count, count-some, contains-those}
use asinc_roulette.Base.Map.{lookup, member, lookup-insert}
use asinc_roulette.Failure.{ok}
use asinc_roulette.Transfer.StreamServer.State.{
  StreamSocket, Connection, TransferServer, Events, change, is_closed, is_connected,
}
use asinc_roulette.Transfer.StreamServer.Connections.{
  mark_closed, disconnect_unavailable_connections,
}
use asinc_roulette.Transfer.StreamServer.Pool.{finish}
use asinc_roulette.Transfer.StreamServer.Orderly.{IsOrderly, Quiet-IsOrderly, Quiet-change}
use asinc_roulette.Transfer.StreamServer.OneTask.{finish-IsOrderly}
use asinc_roulette.Transfer.StreamServer.Reaping.{disconnect_unavailable-Reaps}

module _ {K W : Type 0} ⦃net : StreamSocket K⦄ (events : Events W) where
  finish-clears : (id : ℕ) (s : TransferServer K W) → is_closed id (finish id false s) ≡ false
  unfolding finish change is_closed
  finish-clears id s = elim (Option-cases (lookup id s.heap)) [
    | inl missing ↦ rw (finish, change, missing) (ground arith)
    | inr (c, look) ↦
        let d : Connection K = record c { close = false; free = true } in
        rw (finish, change, look) (ground (arith, lookup-insert id id d s.heap))
  ]

  finish-connections :
      (id : ℕ) (close : Bool) (s : TransferServer K W)
      → (finish id close s).connections ≡ s.connections
  unfolding finish change
  finish-connections id close s = ground arith

  mark-connections :
      (id : ℕ) (s : TransferServer K W) → (mark_closed id s).connections ≡ s.connections
  unfolding mark_closed change
  mark-connections id s = ground arith

  mark-tasks : (id : ℕ) (s : TransferServer K W) → (mark_closed id s).tasks ≡ s.tasks
  unfolding mark_closed change
  mark-tasks id s = ground arith

  mark-IsOrderly : (id : ℕ) (s : TransferServer K W) → IsOrderly s → IsOrderly (mark_closed id s)
  unfolding mark_closed
  mark-IsOrderly id s h =
      Quiet-IsOrderly s _ (Quiet-change id (λ c. record c { close = true }) s (λ c. refl)) h

  mark-closes :
      (id : ℕ) (s : TransferServer K W)
      → member id s.heap ≡ true
      → is_closed id (mark_closed id s) ≡ true
  unfolding mark_closed change is_closed
  mark-closes id s has = elim (Option-cases (lookup id s.heap)) [
    | inl missing ↦ absurd (ground arith)
    | inr (c, look) ↦
        let d : Connection K = record c { close = true } in
        rw (mark_closed, change, look) (ground (arith, lookup-insert id id d s.heap))
  ]

  -- A listed connection has its object.
  object :
      (id : ℕ) (s : TransferServer K W)
      → IsOrderly s
      → is_connected id s ≡ true
      → member id s.heap ≡ true
  object id s h there = h.stored id (count-some id s.connections there)

  -- If disconnect_handle does not throw, then for a connection that is marked as hung up while its
  -- task runs it matters when the task ends without closing: if it ends before the next pass over
  -- the connections, the mark is gone and the pass keeps the connection; if the pass comes first,
  -- the connection is gone.
  pub hang_up_lost :
      (never : (id : ℕ) (w : W) → (events.disconnect_handle id w).0 ≡ ok tt) (id : ℕ)
      (s : TransferServer K W)
      → IsOrderly s
      → 1 ≤ count id s.tasks
      → is_connected id s ≡ true
      → (is_connected id
            (disconnect_unavailable_connections events (finish id false (mark_closed id s))).1
          ≡ true)
        × (is_connected id
              (finish id false (disconnect_unavailable_connections events (mark_closed id s)).1)
            ≡ false)
  unfolding contains
  hang_up_lost never id s h busy there =
      let s1 = mark_closed id s in
      let s2 = finish id false s1 in
      let busy' : 1 ≤ count id s1.tasks = omega (arith, ap (count id) (mark-tasks id s)) in
      let ends_first =
        disconnect_unavailable-Reaps events never s2
          (finish-IsOrderly id false s1 busy' (mark-IsOrderly id s h)) in
      let pass_first = disconnect_unavailable-Reaps events never s1 (mark-IsOrderly id s h) in
      (
        ground (
          arith,
          ends_first.connections id,
          contains-those (λ j. is_closed j s2) id s2.connections,
          finish-clears id s1,
          ap (contains id) (finish-connections id false s1),
          ap (contains id) (mark-connections id s),
        ),
        ground (
          arith,
          ap (contains id)
              (finish-connections id false (disconnect_unavailable_connections events s1).1),
          pass_first.connections id,
          contains-those (λ j. is_closed j s1) id s1.connections,
          mark-closes id s (object id s h there),
          ap (contains id) (mark-connections id s),
        ),
      )
