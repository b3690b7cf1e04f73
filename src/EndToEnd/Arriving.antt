-- ===== src/EndToEnd/Arriving.antt =====
-- A message that comes in at a connection with a task (src/transfer/tcp/LinuxSocket.cpp,
-- src/transfer/tcp/TransferServer.cpp).
use asinc_roulette.Base.{
  ℕ, ◌≤◌, ◌≡◌, refl, ap, ◌∙◌, Bool, true, false, nat_eq, ◌==◌, List, [], ◌∷◌, ◌++◌, none, some,
  Option-cases, arith, length, inl, inr,
}
use asinc_roulette.Base.Slices.{take-eq_of_length, drop-eq_of_length}
use asinc_roulette.Base.Map.{lookup, insert, lookup-insert}
use asinc_roulette.Failure.{Result, ok, err}
use asinc_roulette.Stateful.{Action}
use asinc_roulette.Transfer.Framing.{Bytes, delimiter, find_delimiter, messages-wire}
use asinc_roulette.Transfer.Tcp
use asinc_roulette.Transfer.StreamServer.State.{Connection, TransferServer}
use asinc_roulette.Transfer.StreamServer.Connections.{on_socket}
use asinc_roulette.Transfer.StreamServer.Draining.{pending_at}
use asinc_roulette.Transfer.StreamServer.Wire
use asinc_roulette.Transfer.StreamServer.Wire.{Wire, linux_socket, linux_IsQueue}

-- A connection with a task, whose socket has read some bytes that are no complete message, and is
-- going to read these.
abbrev pub reads : ℕ → ℕ → Bytes → List Bytes → Connection Wire
reads id descriptor before incoming = record {
  id = id;
  socket = record {
    socket = record { buffer = before; received = [] };
    descriptor = descriptor;
    address = [];
    incoming = incoming;
    outgoing = [];
    up = true;
  };
  free = false;
  close = false;
}

-- The connection after the update.
abbrev pub after_update : ℕ → ℕ → Bytes → Connection Wire
after_update id descriptor e =
    let c = reads id descriptor [] [] in
    record c { socket = record c.socket { socket = record { buffer = []; received = e ∷ [] } } }

-- The bytes of a message and its delimiter, but for a last part that one `recv` brings.
pub record IsEnd (e before part : Bytes) : Type 0 where
  pub whole : before ++ part ≡ e ++ delimiter
  pub some_byte : 1 ≤ length part
  pub at_once : length part ≤ Tcp.buffer_size

update-whole :
    (id descriptor : ℕ) (e before part : Bytes)
    → find_delimiter e ≡ none
    → IsEnd e before part
    → Wire.update (reads id descriptor before (part ∷ [])).socket
      ≡ (ok tt, (after_update id descriptor e).socket)
unfolding Wire.update Tcp.update
update-whole id descriptor e before part plain end =
    let some_byte : (length part == 0) ≡ false =
      ground (arith, end.some_byte, nat_eq.beq_iff (length part) 0) in
    rw
      (
        some_byte,
        take-eq_of_length Tcp.buffer_size part end.at_once,
        drop-eq_of_length Tcp.buffer_size part end.at_once,
        end.whole,
        messages-wire (e ∷ []) (plain, tt),
      )
      refl

on_socket-at :
    {W R : Type 0} (id : ℕ) (m : Action Wire R) (t : TransferServer Wire W) (c : Connection Wire)
    (r : Result R) (k : Wire)
    → lookup id t.heap ≡ some c
    → m c.socket ≡ (r, k)
    → on_socket id m t ≡ (r, record t { heap = insert id (record c { socket = k }) t.heap })
unfolding on_socket
on_socket-at {R = R} id m t c r k look does =
    rw (on_socket, look)
      (ap
        (λ (p : Result R × Wire).
          (p.0, record t { heap = insert id (record c { socket = p.1 }) t.heap }))
        does)

module _ {W : Type 0} where
  -- The server, with such a connection under an id.
  abbrev pub arrived : ℕ → ℕ → Bytes → Bytes → TransferServer Wire W → TransferServer Wire W
  arrived id descriptor before part t = record t {
    heap = insert id (reads id descriptor before (part ∷ [])) t.heap;
  }

  -- The server once the task has taken the message off the queue.
  abbrev pub taken : ℕ → TransferServer Wire W → TransferServer Wire W
  taken id t = (on_socket id linux_socket.receive (on_socket id linux_socket.update t).1).1

  pub update-arrived :
      (id descriptor : ℕ) (e before part : Bytes) (t : TransferServer Wire W)
      → find_delimiter e ≡ none
      → IsEnd e before part
      → on_socket id linux_socket.update (arrived id descriptor before part t) ≡ (
        ok tt,
        record t {
          heap =
              insert id
                (after_update id descriptor e)
                (insert id (reads id descriptor before (part ∷ [])) t.heap);
        },
      )
  update-arrived id descriptor e before part t plain end =
      let c = reads id descriptor before (part ∷ []) in
      on_socket-at id Wire.update (arrived id descriptor before part t) c (ok tt)
        (after_update id descriptor e).socket (ground (arith, lookup-insert id id c t.heap))
        (update-whole id descriptor e before part plain end)

  pub pending-arrived :
      (id descriptor : ℕ) (e before part : Bytes) (t : TransferServer Wire W)
      → find_delimiter e ≡ none
      → IsEnd e before part
      → pending_at
          (λ w. w.socket.received)
          id
          (on_socket id linux_socket.update (arrived id descriptor before part t)).1
        ≡ some (e ∷ [])
  unfolding pending_at
  pending-arrived id descriptor e before part t plain end =
      ap (λ (p : Result Unit × TransferServer Wire W). pending_at (λ w. w.socket.received) id p.1)
        (update-arrived id descriptor e before part t plain end)
      ∙ ground (
        arith,
        lookup-insert id id (after_update id descriptor e)
            (arrived id descriptor before part t).heap,
      )

  app-on_socket :
      {R : Type 0} (id : ℕ) (m : Action Wire R) (t : TransferServer Wire W)
      → (on_socket id m t).1.app ≡ t.app
  unfolding on_socket
  app-on_socket id m t = elim (Option-cases (lookup id t.heap)) [
    | inl missing ↦ rw (on_socket, missing) refl
    | inr (c, look) ↦ rw (on_socket, look) refl
  ]

  pub app-taken : (id : ℕ) (t : TransferServer Wire W) → (taken id t).app ≡ t.app
  app-taken id t =
      app-on_socket id linux_socket.receive (on_socket id linux_socket.update t).1
      ∙ app-on_socket id linux_socket.update t

  pub answer-same :
      (r : Result Bool) (t : TransferServer Wire W)
      → elim r as (λ _. Result Bool × TransferServer Wire W) [
        | err e ↦ (err e, t)
        | ok close ↦ elim close [ true ↦ (ok true, t) | false ↦ (ok false, t) ]
      ]
        ≡ (r, t)
  answer-same (err e) t = refl
  answer-same (ok true) t = refl
  answer-same (ok false) t = refl
