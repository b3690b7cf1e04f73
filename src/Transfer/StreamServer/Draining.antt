-- ===== src/Transfer/StreamServer/Draining.antt =====
-- A task handles what its connection has received (src/transfer/tcp/TransferServer.cpp, `task`).
use asinc_roulette.Base.{
  ℕ, zero, suc, ◌<◌, ◌≡◌, refl, ap, ◌∙◌, Bool, true, false, nat_eq, List, [], ◌∷◌, Option, none,
  some, Option-cases, arith, length, inl, inr,
}
use asinc_roulette.Base.Map.{lookup, lookup-insert}
use asinc_roulette.Failure.{Result, ok, err}
use asinc_roulette.Stateful.{Action}
use asinc_roulette.Transfer.Framing.{Bytes}
use asinc_roulette.Transfer.StreamServer.State.{StreamSocket, Connection, TransferServer}
use asinc_roulette.Transfer.StreamServer.Connections.{on_socket}
use asinc_roulette.Transfer.StreamServer.Pool.{closes, finish, finished, task, task_loop}

abbrev pub is_nil : List Bytes → Bool
is_nil [] = true
is_nil (m ∷ ms) = false

-- A socket hands out the messages it has received in their order.
pub record IsQueue {K : Type 0} (net : StreamSocket K) (pending : K → List Bytes) : Type 0 where
  pub empties : (k : K) → net.empty k ≡ is_nil (pending k)
  pub first : (k : K) (m : Bytes) (ms : List Bytes) → pending k ≡ m ∷ ms → (net.receive k).0 ≡ ok m
  pub rest :
      (k : K) (m : Bytes) (ms : List Bytes) → pending k ≡ m ∷ ms → pending (net.receive k).1 ≡ ms

module _ {K W : Type 0} (pending : K → List Bytes) where
  -- What the connection of an id has received and not handled.
  unfoldable pub pending_at : ℕ → TransferServer K W → Option (List Bytes)
  pending_at id s = elim (lookup id s.heap) [ none ↦ none | some c ↦ some (pending c.socket) ]

module _ {K W : Type 0} ⦃net : StreamSocket K⦄
    (handle : ℕ → Bytes → Action (TransferServer K W) Bool) where
  -- The messages are handled one after the other until one of them closes or throws.
  abbrev pub serve : ℕ → List Bytes → Action (TransferServer K W) Bool
  serve id [] s = (ok false, s)
  serve id (m ∷ ms) s =
      let (r, s') = handle id m (on_socket id net.receive s).1 in
      elim r [
        | err e ↦ (err e, s')
        | ok close ↦ elim close [ true ↦ (ok true, s') | false ↦ serve id ms s' ]
      ]

  module _ (pending : K → List Bytes) (queue : IsQueue net pending) where
    receive-first :
        (id : ℕ) (m : Bytes) (ms : List Bytes) (s : TransferServer K W) (c : Connection K)
        → lookup id s.heap ≡ some c
        → pending c.socket ≡ m ∷ ms
        → (on_socket id net.receive s).0 ≡ ok m
    unfolding on_socket
    receive-first id m ms s c look has = rw (on_socket, look) (queue.first c.socket m ms has)

    pending-receive :
        (id : ℕ) (m : Bytes) (ms : List Bytes) (s : TransferServer K W)
        → pending_at pending id s ≡ some (m ∷ ms)
        → pending_at pending id (on_socket id net.receive s).1 ≡ some ms
    unfolding on_socket pending_at
    pending-receive id m ms s has = elim (Option-cases (lookup id s.heap)) [
      | inl missing ↦ absurd (ground arith)
      | inr (c, look) ↦
          let d : Connection K = record c { socket = (net.receive c.socket).1 } in
          let one : pending c.socket ≡ m ∷ ms = ground arith in
          rw (on_socket, look)
            (ground (arith, lookup-insert id id d s.heap, queue.rest c.socket m ms one))
    ]

    -- What becomes of an answer is the same in the loop and in `serve`.
    answered :
        (r : Result Bool) (s : TransferServer K W) (x : Option (Result Bool × TransferServer K W))
        (y : Result Bool × TransferServer K W)
        → x ≡ some y
        → elim r [
          | err e ↦ some (err e, s)
          | ok close ↦ elim close [ true ↦ some (ok true, s) | false ↦ x ]
        ]
          ≡ some (elim r [
            | err e ↦ (err e, s)
            | ok close ↦ elim close [ true ↦ (ok true, s) | false ↦ y ]
          ])
    answered (err e) s x y same = refl
    answered (ok true) s x y same = refl
    answered (ok false) s x y same = same

    task_loop-serve :
        (id : ℕ)
        (keeps : (m : Bytes) (s : TransferServer K W)
          → pending_at pending id (handle id m s).1 ≡ pending_at pending id s)
        (rounds : ℕ) (ms : List Bytes) (s : TransferServer K W)
        → pending_at pending id s ≡ some ms
        → length ms < rounds
        → task_loop handle rounds id s ≡ some (serve id ms s)
    unfolding task_loop pending_at
    task_loop-serve id keeps zero ms s has few = absurd (omega arith)
    task_loop-serve id keeps (suc rounds) [] s has few = elim (Option-cases (lookup id s.heap)) [
      | inl missing ↦ absurd (ground arith)
      | inr (c, look) ↦
          let none_left : pending c.socket ≡ [] = ground arith in
          rw (task_loop, look, queue.empties c.socket, none_left) refl
    ]
    task_loop-serve id keeps (suc rounds) (m ∷ ms) s has few =
        elim (Option-cases (lookup id s.heap)) [
          | inl missing ↦ absurd (ground arith)
          | inr (c, look) ↦
              let one : pending c.socket ≡ m ∷ ms = ground arith in
              let s1 = (on_socket id net.receive s).1 in
              let (r, s2) = handle id m s1 in
              rw (task_loop, look, queue.empties c.socket, one, receive-first id m ms s c look one)
                (answered r s2 _ _ (
                  task_loop-serve id keeps rounds ms s2 (keeps m s1 ∙ pending-receive id m ms s has)
                    (omega arith)))
        ]

    -- If a task can read from its connection, handling a message leaves the queue of the connection
    -- alone and there are more rounds than messages, the task ends: it has handled the messages in
    -- the order of their arrival up to the first that closes or throws, and has then freed the
    -- connection, marked if one did.
    pub task-serve :
        (id : ℕ)
        (keeps : (m : Bytes) (s : TransferServer K W)
          → pending_at pending id (handle id m s).1 ≡ pending_at pending id s)
        (rounds : ℕ) (ms : List Bytes) (s : TransferServer K W)
        → (on_socket id net.update s).0 ≡ ok tt
        → pending_at pending id (on_socket id net.update s).1 ≡ some ms
        → length ms < rounds
        → task handle rounds id s ≡ (
            let (r, t) = serve id ms (on_socket id net.update s).1 in some (finish id (closes r) t))
    unfolding task
    task-serve id keeps rounds ms s reads has few =
        let s1 = (on_socket id net.update s).1 in
        rw (task, reads) (ap (finished handle id) (task_loop-serve id keeps rounds ms s1 has few))
