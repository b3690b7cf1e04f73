-- ===== src/Transfer/StreamServer/Pool.antt =====
-- The tasks of the thread pool (src/transfer/tcp/TransferServer.cpp, `handle_connection`, `task`).
use asinc_roulette.Base.{
  ℕ, zero, suc, Bool, true, false, nat_eq, ◌∷◌, Option, none, some, erase_key, if◌then◌else◌,
}
use asinc_roulette.Base.Map.{lookup, insert}
use asinc_roulette.Failure.{Result, ok, err, undefined_behaviour}
use asinc_roulette.Stateful.{Action}
use asinc_roulette.Transfer.Framing.{Bytes}
use asinc_roulette.Transfer.StreamServer.State.{StreamSocket, TransferServer, change}
use asinc_roulette.Transfer.StreamServer.Connections.{on_socket}

module _ {K W : Type 0} where
  -- A task is given to the pool unless the connection has one.
  unfoldable pub handle_connection : ℕ → TransferServer K W → TransferServer K W
  handle_connection id s = elim (lookup id s.heap) [
    | none ↦ s
    | some c ↦
        if c.free
        then record s { heap = insert id (record c { free = false }) s.heap; tasks = id ∷ s.tasks }
        else s
  ]

-- What `task` stores in `connection->close`: whatever is thrown closes.
abbrev pub closes : Result Bool → Bool
closes (err e) = true
closes (ok b) = b

-- The value of a call of the lambda: what is thrown passes, and what is returned is lost.
abbrev pub lost : Bool → Result Bool → Result Bool
lost found (err e) = err e
lost found (ok close) = ok found

-- The lambda of `handle_connection`, which is declared to return a bool and returns nothing. That
-- is undefined behaviour; `found` is what a caller happens to find in place of a value.
unfoldable pub forwarded :
    {S : Type 0} → (ℕ → Bytes → S → Bool) → (ℕ → Bytes → Action S Bool) → ℕ → Bytes → Action S Bool
forwarded found handle id message s =
    let (r, s') = handle id message s in (lost (found id message s) r, s')

module _ {K W : Type 0} ⦃net : StreamSocket K⦄ where
  -- The end of a task, under the mutex of the connection.
  unfoldable pub finish : ℕ → Bool → TransferServer K W → TransferServer K W
  unfolding change erase_key
  finish id close s =
      let s' =
        change id
          (λ c. record c {
            close = close;
            free = true;
            socket = if close then net.shutdown c.socket else c.socket;
          })
          s in
      record s' { tasks = erase_key id s.tasks }

  module _ (handle : ℕ → Bytes → Action (TransferServer K W) Bool) where
    -- The loop of `task`, with the rounds left: whether the connection is to be closed. In the code
    -- the handler is `forwarded`.
    unfoldable pub task_loop :
        ℕ → ℕ → TransferServer K W → Option (Result Bool × TransferServer K W)
    unfolding on_socket
    task_loop zero id s = none
    task_loop (suc rounds) id s = elim (lookup id s.heap) [
      | none ↦ some (err undefined_behaviour, s)
      | some c ↦
          if net.empty c.socket
          then some (ok false, s)
          else let (r, s1) = on_socket id net.receive s in
            elim r [
              | err e ↦ some (err e, s1)
              | ok message ↦
                  let (r', s2) = handle id message s1 in
                  elim r' [
                    | err e ↦ some (err e, s2)
                    | ok close ↦ elim close [
                      | true ↦ some (ok true, s2)
                      | false ↦ task_loop rounds id s2
                    ]
                  ]
            ]
    ]

    abbrev pub finished :
        ℕ → Option (Result Bool × TransferServer K W) → Option (TransferServer K W)
    finished id none = none
    finished id (some (r, s)) = some (finish id (closes r) s)

    unfoldable pub task : ℕ → ℕ → TransferServer K W → Option (TransferServer K W)
    unfolding on_socket task_loop finish
    task rounds id s =
        let (r, s') = on_socket id net.update s in
        elim r [ err e ↦ some (finish id true s') | ok _ ↦ finished id (task_loop rounds id s') ]
