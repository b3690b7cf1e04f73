-- ===== src/Transfer/DatagramServer/Pool.antt =====
-- The tasks of the thread pool (src/transfer/udp/TransferServer.cpp, `handle_connection`, `task`).
use asinc_roulette.Base.{
  ℕ, zero, suc, Bool, true, false, nat_eq, ◌∷◌, Option, none, some, erase_key, if◌then◌else◌,
}
use asinc_roulette.Base.Map.{lookup, insert}
use asinc_roulette.Failure.{Result, ok, err, undefined_behaviour}
use asinc_roulette.Stateful.{Action}
use asinc_roulette.Transfer.Framing.{Bytes}
use asinc_roulette.Transfer.DatagramServer.State.{DatagramSocket, TransferServer, change, on_socket}

module _ {K W : Type 0} where
  -- A task is given to the pool unless the object has one.
  unfoldable pub handle_connection : ℕ → TransferServer K W → TransferServer K W
  handle_connection p s = elim (lookup p s.heap) [
    | none ↦ s
    | some c ↦
        if c.free
        then record s { heap = insert p (record c { free = false }) s.heap; tasks = p ∷ s.tasks }
        else s
  ]

  -- The end of a task, under the mutex of the connection.
  unfoldable pub finish : ℕ → Bool → TransferServer K W → TransferServer K W
  unfolding change erase_key
  finish p close s =
      let s' = change p (λ c. record c { close = close; free = true }) s in
      record s' { tasks = erase_key p s.tasks }

-- What `task` stores in `connection->close`: whatever is thrown closes.
abbrev pub closes : Result Bool → Bool
closes (err e) = true
closes (ok b) = b

module _ {K W : Type 0} ⦃net : DatagramSocket K⦄
    (handle : ℕ → Bytes → Action (TransferServer K W) Bool) where
  -- The loop of `task` on an object with an id, with the rounds left. In the code the result of the
  -- handler is lost on the way, as in Transfer.StreamServer.Pool.forwarded.
  unfoldable pub task_loop :
      ℕ → ℕ → ℕ → TransferServer K W → Option (Result Bool × TransferServer K W)
  unfolding on_socket
  task_loop zero id p s = none
  task_loop (suc rounds) id p s = elim (lookup p s.heap) [
    | none ↦ some (err undefined_behaviour, s)
    | some c ↦
        if net.empty c.socket
        then some (ok false, s)
        else let (r, s1) = on_socket p net.receive s in
          elim r [
            | err e ↦ some (err e, s1)
            | ok message ↦
                let (r', s2) = handle id message s1 in
                elim r' [
                  | err e ↦ some (err e, s2)
                  | ok close ↦ elim close [
                    | true ↦ some (ok true, s2)
                    | false ↦ task_loop rounds id p s2
                  ]
                ]
          ]
  ]

  abbrev pub finished : ℕ → Option (Result Bool × TransferServer K W) → Option (TransferServer K W)
  finished p none = none
  finished p (some (r, s)) = some (finish p (closes r) s)

  unfoldable pub task : ℕ → ℕ → ℕ → TransferServer K W → Option (TransferServer K W)
  unfolding task_loop finish
  task rounds id p s = finished p (task_loop rounds id p s)
