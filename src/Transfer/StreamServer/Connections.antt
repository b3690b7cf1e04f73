-- ===== src/Transfer/StreamServer/Connections.antt =====
-- The connections of `class TransferServer` (src/transfer/tcp/TransferServer.cpp): the operations
-- that hold the server's mutex.
use asinc_roulette.Base.{
  ℕ, ◌+◌, ◌%◌, ◌^◌, Bool, true, false, nat_eq, List, [], ◌∷◌, none, some, contains, emplace,
  erase_key, if◌then◌else◌, not,
}
use asinc_roulette.Base.Map.{lookup, insert}
use asinc_roulette.Failure.{
  Result, ok, err, connection_not_found, epoll_error, undefined_behaviour, terminated,
}
use asinc_roulette.Stateful.{Action, for_each}
use asinc_roulette.Transfer.Framing.{Bytes}
use asinc_roulette.Transfer.StreamServer.State.{
  StreamSocket, Connection, connected, TransferServer, Events, change, is_closed,
}

module _ {K W : Type 0} where
  -- A new thread takes the place of one that was not joined: the program ends.
  unfoldable pub start : Action (TransferServer K W) Bool
  start s =
      let s' = record s { stop_requests = false } in
      if not s.stop_requests
      then (ok false, s)
      else if s.joinable
      then (err terminated, s')
      else (ok true, record s' { joinable = true })

  unfoldable pub stop : TransferServer K W → TransferServer K W
  stop s = record s { stop_requests = true }

  unfoldable pub stopped : TransferServer K W → Bool
  stopped s = s.stop_requests

  unfoldable pub join : TransferServer K W → TransferServer K W
  join s = record s { joinable = false }

  unfoldable pub connection_by_descriptor : ℕ → TransferServer K W → Result ℕ
  unfolding contains
  connection_by_descriptor descriptor s = elim (lookup descriptor s.descriptors) [
    | none ↦ err connection_not_found
    | some id ↦ if contains id s.connections then ok id else err connection_not_found
  ]

  -- `connection->close = true`
  unfoldable pub mark_closed : ℕ → TransferServer K W → TransferServer K W
  unfolding change
  mark_closed id s = change id (λ c. record c { close = true }) s

  abbrev pub put_app :
      {A : Type 0} → Result A × W → TransferServer K W → Result A × TransferServer K W
  put_app (r, w) s = (r, record s { app = w })

module _ {K W : Type 0} ⦃net : StreamSocket K⦄ where
  abbrev pub entered : ℕ → K → TransferServer K W → TransferServer K W
  entered id client s = record s {
    max_id = (id + 1) % 2 ^ 64;
    heap = insert id (connected id client) s.heap;
    connections = emplace id s.connections;
    descriptors = insert (net.get_descriptor client) id s.descriptors;
  }

module _ {K W : Type 0} ⦃net : StreamSocket K⦄ (events : Events W) where
  -- The loops go over the keys in place of the iterators. After the id was erased the code passes on
  -- a reference to it, which dangles: the id is meant.
  unfoldable pub unsafe_kill : ℕ → Action (TransferServer K W) Unit
  unfolding contains change erase_key
  unsafe_kill id s =
      let s1 = change id (λ c. record c { socket = net.close (net.shutdown c.socket) }) s in
      let s2 = record s1 { connections = erase_key id s.connections } in
      if contains id s.connections
      then put_app (events.disconnect_handle id s.app) s2
      else (ok tt, s)

  unfoldable pub kill : ℕ → Action (TransferServer K W) Unit
  unfolding unsafe_kill
  kill id s = unsafe_kill id s

  unfoldable pub disconnect_connections : Action (TransferServer K W) Unit
  unfolding unsafe_kill for_each
  disconnect_connections s = for_each unsafe_kill s.connections s

  abbrev pub kill_if_closed : ℕ → Action (TransferServer K W) Unit
  kill_if_closed id s = if is_closed id s then unsafe_kill id s else (ok tt, s)

  unfoldable pub disconnect_unavailable_connections : Action (TransferServer K W) Unit
  unfolding unsafe_kill is_closed for_each
  disconnect_unavailable_connections s = for_each kill_if_closed s.connections s

  -- `accepted` is what `accept` returns, and `adds` whether the descriptor can be watched.
  unfoldable pub handle_new_connection : Result K → Bool → Action (TransferServer K W) Unit
  unfolding emplace insert
  handle_new_connection accepted adds s = elim accepted [
    | err e ↦ (err e, s)
    | ok client ↦
        let s' = entered s.max_id client s in
        if adds then put_app (events.connect_handle s.max_id s.app) s' else (err epoll_error, s')
  ]

module _ {K W : Type 0} ⦃net : StreamSocket K⦄ where
  abbrev pub put_socket :
      {A : Type 0}
      → ℕ
      → Result A × K
      → Connection K
      → TransferServer K W
      → Result A × TransferServer K W
  put_socket id (r, k) c s = (r, record s { heap = insert id (record c { socket = k }) s.heap })

  -- An operation on the socket of an object.
  unfoldable pub on_socket : {A : Type 0} → ℕ → Action K A → Action (TransferServer K W) A
  on_socket id m s = elim (lookup id s.heap) [
    | none ↦ (err undefined_behaviour, s)
    | some c ↦ put_socket id (m c.socket) c s
  ]

  unfoldable pub send : ℕ → Bytes → Action (TransferServer K W) Unit
  unfolding contains on_socket
  send id message s =
      if contains id s.connections
      then on_socket id (net.send message) s
      else (err connection_not_found, s)

  unfoldable pub send_all : List ℕ → Bytes → Action (TransferServer K W) Unit
  unfolding send for_each
  send_all ids message s = for_each (λ id. send id message) ids s

  unfoldable pub broadcast : Bytes → Action (TransferServer K W) Unit
  unfolding on_socket for_each
  broadcast message s = for_each (λ id. on_socket id (net.send message)) s.connections s

  unfoldable pub get_connections_of : List ℕ → TransferServer K W → List (ℕ × Bytes)
  get_connections_of [] s = []
  get_connections_of (id ∷ ids) s =
      let rest = get_connections_of ids s in
      elim (lookup id s.heap) [ none ↦ rest | some c ↦ (id, net.get_address c.socket) ∷ rest ]

  unfoldable pub get_connections : TransferServer K W → List (ℕ × Bytes)
  unfolding get_connections_of
  get_connections s = get_connections_of s.connections s
