-- ===== src/Transfer/StreamServer/Loop.antt =====
-- The loop of events (src/transfer/tcp/TransferServer.cpp, `run`).
use asinc_roulette.Base.{ℕ, Bool, nat_eq, List, [], ◌∷◌, Option, none, some, ◌==◌, if◌then◌else◌}
use asinc_roulette.Failure.{Result, ok, err}
use asinc_roulette.Stateful.{Action, when, for_each, ◌>>◌}
use asinc_roulette.Transfer.StreamServer.State.{StreamSocket, TransferServer, Events}
use asinc_roulette.Transfer.StreamServer.Connections.{
  connection_by_descriptor, mark_closed, handle_new_connection, disconnect_connections,
  disconnect_unavailable_connections,
}
use asinc_roulette.Transfer.StreamServer.Pool.{handle_connection}

-- What epoll reports of a descriptor, and what `accept` and `epoll_ctl` do if it is the one that
-- listens.
pub record Event (K : Type 0) : Type 0 where
  pub descriptor : ℕ
  pub error : Bool
  pub hang_up : Bool
  pub readable : Bool
  pub accepted : Result K
  pub adds : Bool

-- The events of one call of `epoll_wait`, and what the other threads do before the next one.
pub record Round (K W : Type 0) : Type 0 where
  pub events : List (Event K)
  pub meanwhile : TransferServer K W → TransferServer K W

module _ {K W : Type 0} where
  -- A call on the connection of a descriptor.
  abbrev pub at_connection :
      (ℕ → TransferServer K W → TransferServer K W) → ℕ → Action (TransferServer K W) Unit
  at_connection f descriptor s = elim (connection_by_descriptor descriptor s) [
    | err e ↦ (err e, s)
    | ok id ↦ (ok tt, f id s)
  ]

module _ {K W : Type 0} ⦃net : StreamSocket K⦄ (events : Events W) where
  abbrev pub read_event : Event K → Action (TransferServer K W) Unit
  read_event e s =
      if e.descriptor == s.listening
      then handle_new_connection events e.accepted e.adds s
      else at_connection handle_connection e.descriptor s

  unfoldable pub handle_event : Event K → Action (TransferServer K W) Unit
  unfolding connection_by_descriptor mark_closed handle_new_connection handle_connection
  handle_event e =
      when e.error (at_connection mark_closed e.descriptor)
      >> when e.hang_up (at_connection mark_closed e.descriptor)
      >> when e.readable (read_event e)

  -- One round of the loop.
  unfoldable pub handle_events : List (Event K) → Action (TransferServer K W) Unit
  unfolding for_each handle_event disconnect_unavailable_connections
  handle_events es = for_each handle_event es >> disconnect_unavailable_connections events

  -- The loop, for the rounds that are known: `none` if it does not end within them. Closing the
  -- listening socket at the end changes nothing here.
  unfoldable pub run :
      List (Round K W) → TransferServer K W → Option (Result Unit × TransferServer K W)
  unfolding handle_events disconnect_connections
  run [] s = if s.stop_requests then some (disconnect_connections events s) else none
  run (r ∷ rs) s =
      if s.stop_requests
      then some (disconnect_connections events s)
      else let (q, t) = handle_events r.events s in
        elim q [ err e ↦ some (err e, t) | ok _ ↦ run rs (r.meanwhile t) ]
