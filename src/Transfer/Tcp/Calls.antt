-- ===== src/Transfer/Tcp/Calls.antt =====
-- The stream socket on any system (src/transfer/tcp/LinuxSocket.h, src/transfer/tcp/LinuxSocket.cpp):
-- its fields, and the methods that call the system.
use asinc_roulette.Base.{
  ℕ, ◌≡◌, refl, Bool, List, [], ◌∷◌, Option, none, some, arith, nat_eq, if◌then◌else◌,
}
use asinc_roulette.Base.Int.{ℤ, pos, leb_ℤ}
use asinc_roulette.Failure.{Result, ok, err, socket_error}
use asinc_roulette.Stateful.{Action, continue, for_each}
use asinc_roulette.Transfer.Framing.{Bytes}
use asinc_roulette.Transfer.System.{System, Address, stream, checked, is_ready}
use asinc_roulette.Transfer.StreamServer.State.{StreamSocket, KeepsDescriptor}
use asinc_roulette.Transfer.StreamServer.Draining.{IsQueue, is_nil}
use asinc_roulette.Transfer.Tcp
use asinc_roulette.Transfer.Tcp.{Socket, buffer_size}

-- `Socket` has the fields `buffer` and `received`.
pub record LinuxSocket : Type 0 where
  pub descriptor : ℕ
  pub queue : Socket
  pub address : Option Address

-- A socket and the system under it.
pub record Endpoint (W : Type 0) : Type 0 where
  pub socket : LinuxSocket
  pub system : W

-- `LinuxSocket(descriptor)`
abbrev pub of_descriptor : ℕ → LinuxSocket
of_descriptor descriptor = record { descriptor = descriptor; queue = Tcp.fresh; address = none }

module _ {W : Type 0} ⦃sys : System W⦄ where
  -- `LinuxSocket()`
  unfoldable pub open_socket : W → Endpoint W
  open_socket w =
      let (descriptor, w') = sys.socket stream w in
      record { socket = of_descriptor descriptor; system = w' }

  -- A call with the descriptor of the socket.
  abbrev pub calling : {B : Type 0} → (ℕ → W → B × W) → Endpoint W → B × Endpoint W
  calling f e = let (b, w) = f e.socket.descriptor e.system in (b, record e { system = w })

  unfoldable pub bind : Address → Action (Endpoint W) Unit
  bind address e = let (success, e') = calling (λ d. sys.bind d address) e in (checked success, e')

  unfoldable pub listen : ℤ → Action (Endpoint W) Unit
  listen backlog e =
      let (success, e') = calling (λ d. sys.listen d backlog) e in (checked success, e')

  unfoldable pub connect : Address → Action (Endpoint W) Unit
  connect address e =
      let (success, e') = calling (λ d. sys.connect d address) e in (checked success, e')

  -- `receive(char *message, int flags)`: the bytes that one `recv` brought.
  unfoldable pub receive_chunk : ℤ → Action (Endpoint W) Bytes
  receive_chunk flags e =
      let (chunk, e') = calling (λ d. sys.recv d buffer_size flags) e in
      elim chunk [
        | none ↦ (err socket_error, e')
        | some [] ↦ (err socket_error, e')
        | some (b ∷ bs) ↦ (ok (b ∷ bs), e')
      ]

  abbrev pub on_queue : (Socket → Socket) → Endpoint W → Endpoint W
  on_queue f e = record e { socket = record (e.socket) { queue = f e.socket.queue } }

  unfoldable pub update : Action (Endpoint W) Unit
  unfolding receive_chunk Tcp.update
  update e =
      let (r, e') = receive_chunk (pos 0) e in
      elim r [ err x ↦ (err x, e') | ok chunk ↦ (ok tt, on_queue (Tcp.update chunk) e') ]

  unfoldable pub receive : Action (Endpoint W) Bytes
  unfolding Tcp.receive
  receive e = elim (Tcp.receive e.socket.queue) [
    | err x ↦ (err x, e)
    | ok p ↦ (ok p.0, on_queue (λ _. p.1) e)
  ]

  unfoldable pub send_chunk : Bytes → Action (Endpoint W) Unit
  send_chunk chunk e =
      let (size, e') = calling (λ d. sys.send d chunk) e in
      (if leb_ℤ size (pos 0) then err socket_error else ok tt, e')

  unfoldable pub send : Bytes → Action (Endpoint W) Unit
  unfolding Tcp.send send_chunk for_each
  send message e = for_each send_chunk (Tcp.send message) e

  -- The results of `close`, `shutdown` and `setsockopt` are not looked at.
  unfoldable pub close : Endpoint W → Endpoint W
  close e = (calling sys.close e).1

  unfoldable pub shutdown : Endpoint W → Endpoint W
  shutdown e = (calling sys.shutdown e).1

  unfoldable pub set_options : ℤ → Endpoint W → Endpoint W
  set_options option e = (calling (λ d. sys.setsockopt d option) e).1

  unfoldable pub accept : Action (Endpoint W) LinuxSocket
  accept e =
      let (socket, e') = calling sys.accept e in
      (elim socket [ none ↦ err socket_error | some d ↦ ok (of_descriptor d) ], e')

  -- The address that the system knows; if it knows none, the one that it knew before.
  unfoldable pub get_address : Endpoint W → Option Address × Endpoint W
  get_address e = elim (sys.getsockname e.socket.descriptor e.system) [
    | none ↦ (e.socket.address, e)
    | some a ↦ (some a, record e { socket = record (e.socket) { address = some a } })
  ]

  -- `timeout` is nothing where the call waits for ever.
  unfoldable pub select : Option ℕ → Action (Endpoint W) Bool
  select timeout e = let (ready, e') = calling (λ d. sys.select d timeout) e in (is_ready ready, e')

  abbrev pub get_descriptor : Endpoint W → ℕ
  get_descriptor e = e.socket.descriptor

  -- The socket of the stream server; `name_of` is what is printed for a socket.
  abbrev pub stream_socket : (Endpoint W → Bytes) → StreamSocket (Endpoint W)
  stream_socket name_of = record {
    update = update;
    empty = λ e. is_nil e.socket.queue.received;
    receive = receive;
    send = send;
    shutdown = shutdown;
    close = close;
    get_descriptor = get_descriptor;
    get_address = name_of;
  }

  -- On any system the socket hands out the messages that it has received in their order.
  pub stream-IsQueue :
      (name_of : Endpoint W → Bytes)
      → IsQueue (stream_socket name_of) (λ e. e.socket.queue.received)
  unfolding receive Tcp.receive
  stream-IsQueue name_of = record {
    empties = λ e. refl;
    first = λ e m ms has. rw (receive, Tcp.receive, has) refl;
    rest = λ e m ms has. rw (receive, Tcp.receive, has) refl;
  }

  continue-descriptor :
      (r : Result Unit) (f : Unit → Action (Endpoint W) Unit) (e : Endpoint W)
      → get_descriptor (f tt e).1 ≡ get_descriptor e
      → get_descriptor (continue r f e).1 ≡ get_descriptor e
  continue-descriptor (ok u) f e h = h
  continue-descriptor (err x) f e h = refl

  sends-descriptor :
      (chunks : List Bytes) (e : Endpoint W)
      → get_descriptor (for_each send_chunk chunks e).1 ≡ get_descriptor e
  unfolding for_each send_chunk
  sends-descriptor [] e = refl
  sends-descriptor (chunk ∷ chunks) e =
      continue-descriptor (send_chunk chunk e).0 (λ _. for_each send_chunk chunks)
        (send_chunk chunk e).1 (sends-descriptor chunks (send_chunk chunk e).1)

  pub stream-KeepsDescriptor :
      (name_of : Endpoint W → Bytes) → KeepsDescriptor (stream_socket name_of)
  unfolding update receive send receive_chunk shutdown close
  stream-KeepsDescriptor name_of = record {
    update = λ e. ground arith;
    receive = λ e. ground arith;
    send = λ m e. sends-descriptor (Tcp.send m) e;
    shutdown = λ e. refl;
    close = λ e. refl;
  }
