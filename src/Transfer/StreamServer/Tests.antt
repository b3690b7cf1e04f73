-- ===== src/Transfer/StreamServer/Tests.antt =====
-- The theorems about the stream server at a server with two connections.
use asinc_roulette.Base.{
  ℕ, ◌+◌, ◌-◌, ◌≡◌, ◌==◌, refl, sym, ap, arith, Bool, true, false, nat_eq, [], ◌∷◌, zero, suc, some,
  contains, emplace,
}
use asinc_roulette.Base.Map.{lookup, insert}
use asinc_roulette.Base.Counting.{count}
use asinc_roulette.Failure.{ok}
use asinc_roulette.Stateful.{Action}
use asinc_roulette.Transfer.Framing.{Bytes, messages, extract, find_delimiter}
use asinc_roulette.Transfer.Tcp
use asinc_roulette.Transfer.StreamServer.State.{
  Connection, connected, TransferServer, Events, is_free, is_closed, is_connected,
}
use asinc_roulette.Transfer.StreamServer.Wire
use asinc_roulette.Transfer.StreamServer.Wire.{
  Wire, linux_socket, linux_IsQueue, linux_KeepsDescriptor,
}
use asinc_roulette.Transfer.StreamServer.Connections.{
  handle_new_connection, connection_by_descriptor, mark_closed, on_socket,
  disconnect_unavailable_connections,
}
use asinc_roulette.Transfer.StreamServer.Pool.{handle_connection, finish, closes, task}
use asinc_roulette.Transfer.StreamServer.Steps.{
  IsNewDescriptor, Reach, here, next, accepting, enqueueing, marking,
}
use asinc_roulette.Transfer.StreamServer.Orderly.{IsOrderly}
use asinc_roulette.Transfer.StreamServer.Mild.{IsIndexed}
use asinc_roulette.Transfer.StreamServer.Descriptors.{connection_found}
use asinc_roulette.Transfer.StreamServer.Reaping.{Reaps, disconnect_unavailable-Reaps}
use asinc_roulette.Transfer.StreamServer.Marks.{hang_up_lost}
use asinc_roulette.Transfer.StreamServer.Loop.{Round, run}
use asinc_roulette.Transfer.StreamServer.Ending.{Ends, run-Ends}
use asinc_roulette.Transfer.StreamServer.Draining.{pending_at, serve, task-serve}
use asinc_roulette.Transfer.StreamServer.OneTask.{one_task}

-- The derived class counts its clients.
abbrev counted : Events ℕ
counted = record {
  connect_handle = λ id n. (ok tt, n + 1);
  disconnect_handle = λ id n. (ok tt, n - 1);
}

abbrev new_server : TransferServer Wire ℕ
new_server = record {
  listening = 3;
  stop_requests = false;
  joinable = true;
  descriptors = [];
  connections = [];
  heap = [];
  max_id = 0;
  tasks = [];
  app = 0;
}

abbrev wire : ℕ → Wire
wire d = record {
  socket = Tcp.fresh;
  descriptor = d;
  address = [];
  incoming = (104 ∷ 105 ∷ 13 ∷ 10 ∷ 111 ∷ 13 ∷ 10 ∷ []) ∷ [];
  outgoing = [];
  up = true;
}

new_IsOrderly : IsOrderly new_server
unfolding count lookup is_free
new_IsOrderly = record {
  balanced = λ id. refl;
  fresh = λ id le. refl;
  stored = λ id c. absurd (omega arith);
  distinct = λ id. omega arith;
}

new_IsIndexed : IsIndexed new_server
unfolding contains
new_IsIndexed = record { leads = λ id c there look. absurd (ground arith) }

abbrev one_client : TransferServer Wire ℕ
one_client = (handle_new_connection counted (ok (wire 5)) true new_server).1

abbrev two_clients : TransferServer Wire ℕ
two_clients = (handle_new_connection counted (ok (wire 6)) true one_client).1

-- The first client has a task.
abbrev busy_server : TransferServer Wire ℕ
busy_server = handle_connection 0 two_clients

descriptor_is_new : IsNewDescriptor (wire 6) one_client
unfolding handle_new_connection contains emplace insert lookup
descriptor_is_new zero c there look =
    let same : connected 0 (wire 5) ≡ c = ground arith in
    ap (λ (y : Connection Wire). y.socket.descriptor == 6) (sym same)
descriptor_is_new (suc id) c there look = absurd (ground arith)

busy_Reach : Reach counted new_server busy_server
unfolding handle_new_connection contains
busy_Reach =
    next
      (next
        (next here (
          accepting (wire 5) true new_server (omega arith)
            (λ id c there look. absurd (ground arith))))
        (accepting (wire 6) true one_client (omega arith) descriptor_is_new))
      (enqueueing 0 two_clients)

one_task_example : IsOrderly busy_server
one_task_example = one_task counted new_IsOrderly busy_Reach

connection_found_example : connection_by_descriptor 6 busy_server ≡ ok 1
unfolding handle_new_connection handle_connection contains emplace insert lookup
connection_found_example =
    connection_found linux_KeepsDescriptor counted new_IsIndexed busy_Reach 1 (connected 1 (wire 6))
      refl refl

never_throws : (id n : ℕ) → (counted.disconnect_handle id n).0 ≡ ok tt
never_throws id n = refl

-- The second client has hung up.
abbrev hung_up : TransferServer Wire ℕ
hung_up = mark_closed 1 busy_server

hung_up-IsOrderly : IsOrderly hung_up
hung_up-IsOrderly = one_task counted new_IsOrderly (next busy_Reach (marking 1 busy_server))

disconnect_unavailable-Reaps_example :
    Reaps counted (1 ∷ []) hung_up (disconnect_unavailable_connections counted hung_up)
unfolding handle_new_connection handle_connection mark_closed emplace contains insert lookup
    is_closed
disconnect_unavailable-Reaps_example =
    disconnect_unavailable-Reaps counted never_throws hung_up hung_up-IsOrderly

hang_up_lost_example :
    (is_connected 0
        (disconnect_unavailable_connections counted (finish 0 false (mark_closed 0 busy_server))).1
      ≡ true)
    × (is_connected 0 (
          finish 0 false (disconnect_unavailable_connections counted (mark_closed 0 busy_server)).1)
        ≡ false)
unfolding handle_new_connection handle_connection emplace contains insert lookup count
hang_up_lost_example =
    hang_up_lost counted never_throws 0 busy_server (one_task counted new_IsOrderly busy_Reach)
      (omega arith) refl

-- Every message is answered, and "o" closes.
abbrev answers : ℕ → Bytes → Action (TransferServer Wire ℕ) Bool
answers id (x ∷ []) s = (ok true, s)
answers id m s = (ok false, record s { app = s.app + 1 })

answers-keeps :
    (m : Bytes) (s : TransferServer Wire ℕ)
    → pending_at (λ w. w.socket.received) 0 (answers 0 m s).1
      ≡ pending_at (λ w. w.socket.received) 0 s
unfolding pending_at
answers-keeps [] s = refl
answers-keeps (x ∷ []) s = refl
answers-keeps (x ∷ y ∷ m) s = refl

task-serve_example : task answers 3 0 busy_server ≡ (
    let (r, t) =
      serve answers 0
        ((104 ∷ 105 ∷ []) ∷ (111 ∷ []) ∷ [])
        (on_socket 0 linux_socket.update busy_server).1 in
    some (finish 0 (closes r) t))
unfolding handle_new_connection handle_connection emplace contains insert lookup on_socket
    Wire.update Tcp.update messages extract find_delimiter pending_at
task-serve_example =
    task-serve answers (λ w. w.socket.received) linux_IsQueue 0 answers-keeps 3
      ((104 ∷ 105 ∷ []) ∷ (111 ∷ []) ∷ []) busy_server refl refl (omega arith)

-- A round without events, after which the server is stopped.
abbrev quiet_round : Round Wire ℕ
quiet_round = record { events = []; meanwhile = λ s. record s { stop_requests = true } }

run-Ends_example : Ends (run counted (quiet_round ∷ []) busy_server)
run-Ends_example = run-Ends counted never_throws [] [] quiet_round (λ s. refl) busy_server
