-- ===== src/Transfer/StreamServer/Steps.antt =====
-- The threads of the server (src/transfer/tcp/TransferServer.cpp): the loop of events, the tasks of
-- the pool and the callers of the server, interleaved at what they do under a mutex.
use asinc_roulette.Base.{
  ℕ, ◌+◌, ◌≤◌, ◌<◌, ◌^◌, ◌≡◌, ◌==◌, Bool, true, false, nat_eq, some, contains,
}
use asinc_roulette.Base.Map.{lookup}
use asinc_roulette.Base.Counting.{count}
use asinc_roulette.Failure.{ok}
use asinc_roulette.Transfer.Framing.{Bytes}
use asinc_roulette.Transfer.StreamServer.State.{StreamSocket, Connection, TransferServer, Events}
use asinc_roulette.Transfer.StreamServer.Connections.{
  stop, mark_closed, unsafe_kill, handle_new_connection, on_socket, send,
}
use asinc_roulette.Transfer.StreamServer.Pool.{handle_connection, finish}

module _ {K W : Type 0} ⦃net : StreamSocket K⦄ where
  -- The descriptor of a socket is that of no connection.
  abbrev pub IsNewDescriptor : K → TransferServer K W → Type 0
  IsNewDescriptor client s =
      (id : ℕ) (c : Connection K)
      → contains id s.connections ≡ true
      → lookup id s.heap ≡ some c
      → (net.get_descriptor c.socket == net.get_descriptor client) ≡ false

module _ {K W : Type 0} ⦃net : StreamSocket K⦄ (events : Events W) where
  pub data Step : TransferServer K W → TransferServer K W → Type 0 where
    -- the loop of events; fewer than 2 ^ 64 connections are accepted, and the system gives out no
    -- descriptor that is open
    accepting :
        (client : K) (adds : Bool) (s : TransferServer K W)
        → s.max_id + 1 < 2 ^ 64
        → IsNewDescriptor client s
        → Step s (handle_new_connection events (ok client) adds s).1
    enqueueing : (id : ℕ) (s : TransferServer K W) → Step s (handle_connection id s)
    marking : (id : ℕ) (s : TransferServer K W) → Step s (mark_closed id s)
    -- the loop of events, or `kill` in any thread
    killing : (id : ℕ) (s : TransferServer K W) → Step s (unsafe_kill events id s).1
    -- a task
    updating :
        (id : ℕ) (s : TransferServer K W)
        → 1 ≤ count id s.tasks
        → Step s (on_socket id net.update s).1
    receiving :
        (id : ℕ) (s : TransferServer K W)
        → 1 ≤ count id s.tasks
        → Step s (on_socket id net.receive s).1
    finishing :
        (id : ℕ) (close : Bool) (s : TransferServer K W)
        → 1 ≤ count id s.tasks
        → Step s (finish id close s)
    -- any thread, the handlers of the tasks among them
    sending : (id : ℕ) (message : Bytes) (s : TransferServer K W) → Step s (send id message s).1
    stopping : (s : TransferServer K W) → Step s (stop s)
    computing : (w : W) (s : TransferServer K W) → Step s (record s { app = w })

  pub data Reach (s : TransferServer K W) : TransferServer K W → Type 0 where
    here : Reach s s
    next : {t u : TransferServer K W} → Reach s t → Step t u → Reach s u
