-- ===== src/Transfer/StreamServer/Wire.antt =====
-- `LinuxSocket` as the socket of the stream server (src/transfer/tcp/LinuxSocket.cpp,
-- src/transfer/tcp/TransferServer.cpp).
use asinc_roulette.Base.{
  ℕ, refl, Bool, false, List, [], ◌∷◌, ◌++◌, ◌==◌, ◌||◌, not, nat_eq, length, take, drop, arith,
  if◌then◌else◌,
}
use asinc_roulette.Failure.{Result, ok, err, socket_error}
use asinc_roulette.Transfer.Framing.{Bytes}
use asinc_roulette.Transfer.Tcp
use asinc_roulette.Transfer.Tcp.{Socket, buffer_size}
use asinc_roulette.Transfer.StreamServer.State.{StreamSocket, KeepsDescriptor}
use asinc_roulette.Transfer.StreamServer.Draining.{IsQueue, is_nil}

-- A socket and the system under it.
pub record Wire : Type 0 where
  pub socket : Socket
  pub descriptor : ℕ
  pub address : Bytes
  -- what the calls of `recv` are going to return, 512 bytes of it at a time; nothing if the peer is
  -- gone
  pub incoming : List Bytes
  -- what the calls of `send` were given, oldest first, while the connection is open
  pub outgoing : List Bytes
  pub up : Bool

-- What one `recv` leaves of a chunk stays in front of the others.
abbrev pub left_over : Bytes → List Bytes → List Bytes
left_over [] chunks = chunks
left_over (b ∷ bs) chunks = (b ∷ bs) ∷ chunks

unfoldable pub update : Wire → Result Unit × Wire
unfolding Tcp.update
update w = elim (w.incoming) [
  | [] ↦ (err socket_error, w)
  | chunk ∷ chunks ↦
      if length chunk == 0 || not w.up
      then (err socket_error, record w { incoming = chunks })
      else (
        ok tt,
        record w {
          socket = Tcp.update (take buffer_size chunk) w.socket;
          incoming = left_over (drop buffer_size chunk) chunks;
        },
      )
]

-- `receive()`
unfoldable pub receive : Wire → Result Bytes × Wire
unfolding Tcp.receive
receive w = elim (Tcp.receive w.socket) [
  | err e ↦ (err e, w)
  | ok p ↦ (ok p.0, record w { socket = p.1 })
]

unfoldable pub send : Bytes → Wire → Result Unit × Wire
unfolding Tcp.send
send message w =
    if w.up
    then (ok tt, record w { outgoing = w.outgoing ++ Tcp.send message })
    else (err socket_error, w)

abbrev pub shutdown : Wire → Wire
shutdown w = record w { up = false }

abbrev pub empty : Wire → Bool
empty w = is_nil w.socket.received

instance abbrev pub linux_socket : StreamSocket Wire
linux_socket = record {
  update = update;
  empty = empty;
  receive = receive;
  send = send;
  shutdown = shutdown;
  close = shutdown;
  get_descriptor = λ w. w.descriptor;
  get_address = λ w. w.address;
}

pub linux_IsQueue : IsQueue linux_socket (λ w. w.socket.received)
unfolding receive Tcp.receive
linux_IsQueue = record {
  empties = λ w. refl;
  first = λ w m ms has. rw (receive, Tcp.receive, has) refl;
  rest = λ w m ms has. rw (receive, Tcp.receive, has) refl;
}

pub linux_KeepsDescriptor : KeepsDescriptor linux_socket
unfolding update receive send
linux_KeepsDescriptor = record {
  update = λ w. ground arith;
  receive = λ w. ground arith;
  send = λ m w. ground arith;
  shutdown = λ w. refl;
  close = λ w. refl;
}
