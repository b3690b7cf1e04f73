-- ===== src/Transfer/DatagramServer/Connections.antt =====
-- The connections of `class TransferServer` (src/transfer/udp/TransferServer.cpp).
use asinc_roulette.Base.{
  ℕ, zero, suc, ◌+◌, Bool, true, false, nat_eq, List, [], ◌∷◌, Option, none, some, map,
  if◌then◌else◌, not, ◌&&◌,
}
use asinc_roulette.Base.Map.{Map, lookup, member, insert, erase}
use asinc_roulette.Failure.{Result, ok, err, connection_not_found, socket_error, terminated}
use asinc_roulette.Stateful.{Action, for_each}
use asinc_roulette.Transfer.Framing.{Bytes}
use asinc_roulette.Transfer.System.{Address}
use asinc_roulette.Transfer.DatagramServer.State.{
  DatagramSocket, connected, TransferServer, Events, change, is_closed, on_socket,
}

-- `catch (Socket::error &ignore) {}`
abbrev pub ignored : Result Unit → Result Unit
ignored (err socket_error) = ok tt
ignored (err e) = err e
ignored (ok _) = ok tt

-- The keys of a map.
abbrev pub ids : Map ℕ ℕ → List ℕ
ids m = map (λ (en : ℕ × ℕ). en.0) m

module _ {K W : Type 0} where
  -- A new thread takes the place of one that was not joined: the program ends.
  unfoldable pub start : Action (TransferServer K W) Bool
  start s =
      let s' = record s { stop_requests = false } in
      if not s.stop_requests
      then (ok false, s)
      else if s.joinable
      then (err terminated, s')
      else (ok true, record s' { joinable = true })

  unfoldable pub stop : TransferServer K W → TransferServer K W
  stop s = record s { stop_requests = true }

  unfoldable pub stopped : TransferServer K W → Bool
  stopped s = s.stop_requests

  unfoldable pub join : TransferServer K W → TransferServer K W
  join s = record s { joinable = false }

  unfoldable pub mark_closed : ℕ → TransferServer K W → TransferServer K W
  unfolding change
  mark_closed p s = change p (λ c. record c { close = true }) s

module _ {K W : Type 0} ⦃net : DatagramSocket K⦄ (events : Events W) where
  -- The connection is erased, and the handler called with the id, to which the code has only a
  -- reference that dangles.
  abbrev pub disconnect : ℕ → Result Unit × TransferServer K W → Result Unit × TransferServer K W
  disconnect id (err e, s) = (err e, s)
  disconnect id (ok _, s) =
      let (r, w) = events.disconnect_handle id s.app in
      (r, record s { connections = erase id s.connections; app = w })

  -- A socket that fails to close keeps its connection.
  unfoldable pub unsafe_kill : ℕ → Action (TransferServer K W) Unit
  unfolding on_socket erase
  unsafe_kill id s = elim (lookup id s.connections) [
    | none ↦ (ok tt, s)
    | some p ↦ let (r, s') = disconnect id (on_socket p net.close s) in (ignored r, s')
  ]

  unfoldable pub kill : ℕ → Action (TransferServer K W) Unit
  unfolding unsafe_kill
  kill id s = unsafe_kill id s

  -- The loop of the iterator over the ids that are left, with the rounds left: it moves on when the
  -- connection was erased or need not be.
  unfoldable pub kill_loop :
      (ℕ → TransferServer K W → Bool)
      → ℕ
      → List ℕ
      → TransferServer K W
      → Option (Result Unit × TransferServer K W)
  unfolding unsafe_kill
  kill_loop test rounds [] s = some (ok tt, s)
  kill_loop test zero (id ∷ rest) s = none
  kill_loop test (suc rounds) (id ∷ rest) s =
      let (r, s') = if test id s then unsafe_kill id s else (ok tt, s) in
      let left = if test id s && member id s'.connections then id ∷ rest else rest in
      elim r [ err e ↦ some (err e, s') | ok _ ↦ kill_loop test rounds left s' ]

  unfoldable pub disconnect_connections :
      ℕ → TransferServer K W → Option (Result Unit × TransferServer K W)
  unfolding kill_loop
  disconnect_connections rounds s = kill_loop (λ id s'. true) rounds (ids s.connections) s

  abbrev pub is_unavailable : ℕ → TransferServer K W → Bool
  is_unavailable id s = elim (lookup id s.connections) [ none ↦ false | some p ↦ is_closed p s ]

  unfoldable pub disconnect_unavailable_connections :
      ℕ → TransferServer K W → Option (Result Unit × TransferServer K W)
  unfolding kill_loop is_closed
  disconnect_unavailable_connections rounds s =
      kill_loop is_unavailable rounds (ids s.connections) s

module _ {K W : Type 0} ⦃net : DatagramSocket K⦄ where
  -- `connections.emplace(id, std::make_shared<Connection>(id, socket->accept(address)))`
  abbrev pub entered : ℕ → Address → TransferServer K W → TransferServer K W
  entered id address s = record s {
    connections = insert id s.next s.connections;
    heap = insert s.next (connected id (net.accept address)) s.heap;
    next = s.next + 1;
  }

  unfoldable pub send : ℕ → Bytes → Action (TransferServer K W) Unit
  unfolding on_socket
  send id message s = elim (lookup id s.connections) [
    | none ↦ (err connection_not_found, s)
    | some p ↦ on_socket p (net.send message) s
  ]

  unfoldable pub send_all : List ℕ → Bytes → Action (TransferServer K W) Unit
  unfolding send for_each
  send_all to message s = for_each (λ id. send id message) to s

  unfoldable pub broadcast : Bytes → Action (TransferServer K W) Unit
  unfolding on_socket for_each
  broadcast message s = for_each (λ (en : ℕ × ℕ). on_socket en.1 (net.send message)) s.connections s

  unfoldable pub get_connections_of : Map ℕ ℕ → TransferServer K W → List (ℕ × Address)
  get_connections_of [] s = []
  get_connections_of ((id, p) ∷ m) s =
      let rest = get_connections_of m s in
      elim (lookup p s.heap) [ none ↦ rest | some c ↦ (id, net.get_address c.socket) ∷ rest ]

  unfoldable pub get_connections : TransferServer K W → List (ℕ × Address)
  unfolding get_connections_of
  get_connections s = get_connections_of s.connections s
