-- ===== src/Transfer/DatagramServer/Loop.antt =====
-- The loop of events (src/transfer/udp/TransferServer.cpp, `run`).
use asinc_roulette.Base.{ℕ, Bool, nat_eq, List, [], ◌∷◌, Option, none, some, if◌then◌else◌}
use asinc_roulette.Base.Map.{lookup}
use asinc_roulette.Failure.{Result, ok, err}
use asinc_roulette.Stateful.{Action, continue, for_each}
use asinc_roulette.Transfer.Framing.{Bytes}
use asinc_roulette.Transfer.System.{Address}
use asinc_roulette.Transfer.DatagramServer.State.{
  concat, timeout_msec, DatagramSocket, TransferServer, Events, on_socket,
}
use asinc_roulette.Transfer.DatagramServer.Connections.{
  mark_closed, entered, disconnect_connections, disconnect_unavailable_connections,
}
use asinc_roulette.Transfer.DatagramServer.Pool.{handle_connection}

-- What epoll reports: an error, which is only printed, or a datagram and where it comes from.
pub record Event : Type 0 where
  pub error : Bool
  pub readable : Bool
  pub datagram : Result (Bytes × Address)

-- The events of one call of `epoll_wait`, and what the other threads do before the next one.
pub record Round (K W : Type 0) : Type 0 where
  pub events : List Event
  pub meanwhile : TransferServer K W → TransferServer K W

module _ {K W : Type 0} ⦃net : DatagramSocket K⦄ where
  -- A connection gets a datagram. That the update may ask to close is not looked at.
  unfoldable pub deliver : ℕ → Bytes → Action (TransferServer K W) Unit
  unfolding on_socket handle_connection
  deliver p message s =
      let (r, s') = on_socket p (net.update message) s in
      elim r [
        | err e ↦ (err e, s')
        | ok _ ↦ elim (lookup p s'.heap) [
          | none ↦ (ok tt, s')
          | some c ↦ if net.empty c.socket then (ok tt, s') else (ok tt, handle_connection p s')
        ]
      ]

  -- The silence of a connection.
  unfoldable pub wait : ℕ → Action (TransferServer K W) Unit
  unfolding on_socket mark_closed
  wait p s =
      let (r, s') = on_socket p (net.update_timeout timeout_msec) s in
      elim r [
        | err e ↦ (err e, s')
        | ok over ↦ if over then (ok tt, mark_closed p s') else (ok tt, s')
      ]

module _ {K W : Type 0} ⦃net : DatagramSocket K⦄ (events : Events W) where
  unfoldable pub handle_datagram : Bytes → Address → Action (TransferServer K W) Unit
  unfolding deliver
  handle_datagram message address s =
      let id = concat address in
      elim (lookup id s.connections) [
        | some p ↦ deliver p message s
        | none ↦
            let (r, w) = events.connect_handle id s.app in
            let s' = record (entered id address s) { app = w } in
            elim r [ err e ↦ (err e, s') | ok _ ↦ deliver s.next message s' ]
      ]

  unfoldable pub handle_event : Event → Action (TransferServer K W) Unit
  unfolding handle_datagram
  handle_event e s =
      if e.readable
      then elim (e.datagram) [ err e' ↦ (err e', s) | ok p ↦ handle_datagram p.0 p.1 s ]
      else (ok tt, s)

  -- The events of a round, then the silence of each connection.
  unfoldable pub handle_events : List Event → Action (TransferServer K W) Unit
  unfolding for_each handle_event wait
  handle_events es s =
      let (r, s') = for_each handle_event es s in
      continue r (λ _. for_each (λ (en : ℕ × ℕ). wait en.1) s'.connections) s'

  -- The loop, for the rounds that are known and `kills` rounds of each loop that disconnects:
  -- `none` if it does not end within them.
  unfoldable pub run :
      ℕ → List (Round K W) → TransferServer K W → Option (Result Unit × TransferServer K W)
  unfolding handle_events disconnect_connections disconnect_unavailable_connections
  run kills [] s = if s.stop_requests then disconnect_connections events kills s else none
  run kills (r ∷ rs) s =
      if s.stop_requests
      then disconnect_connections events kills s
      else let (q, t) = handle_events r.events s in
        elim q [
          | err e ↦ some (err e, t)
          | ok _ ↦ elim (disconnect_unavailable_connections events kills t) [
            | none ↦ none
            | some p ↦ elim (p.0) [
              | err e ↦ some (err e, p.1)
              | ok _ ↦ run kills rs (r.meanwhile p.1)
            ]
          ]
        ]
