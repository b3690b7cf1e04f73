-- ===== src/Transfer/Udp/Calls.antt =====
-- The datagram socket on any system (src/transfer/udp/LinuxSocket.h,
-- src/transfer/udp/LinuxSocket.cpp): the methods that call the system.
use asinc_roulette.Base.{ℕ, Bool, [], ◌∷◌, Option, none, some, nat_eq, if◌then◌else◌}
use asinc_roulette.Base.Int.{ℤ, pos, leb_ℤ}
use asinc_roulette.Failure.{ok, err, socket_error, undefined_behaviour}
use asinc_roulette.Stateful.{Action}
use asinc_roulette.Transfer.Framing.{Bytes}
use asinc_roulette.Transfer.System.{System, Address, datagram, checked, is_ready}
use asinc_roulette.Transfer.Udp
use asinc_roulette.Transfer.Udp.{Socket, buffer_size}

-- `Socket` has the other fields.
pub record LinuxSocket : Type 0 where
  pub descriptor : ℕ
  pub queue : Socket
  pub address : Option Address

-- A socket and the system under it.
pub record Endpoint (W : Type 0) : Type 0 where
  pub socket : LinuxSocket
  pub system : W

-- `LinuxSocket(descriptor)`
abbrev pub of_descriptor : ℕ → LinuxSocket
of_descriptor descriptor = record { descriptor = descriptor; queue = Udp.fresh; address = none }

module _ {W : Type 0} ⦃sys : System W⦄ where
  -- `LinuxSocket()`
  unfoldable pub open_socket : W → Endpoint W
  open_socket w =
      let (descriptor, w') = sys.socket datagram w in
      record { socket = of_descriptor descriptor; system = w' }

  -- A call with the descriptor of the socket.
  abbrev pub calling : {B : Type 0} → (ℕ → W → B × W) → Endpoint W → B × Endpoint W
  calling f e = let (b, w) = f e.socket.descriptor e.system in (b, record e { system = w })

  unfoldable pub bind : Address → Action (Endpoint W) Unit
  bind address e = let (success, e') = calling (λ d. sys.bind d address) e in (checked success, e')

  -- `timeout` is nothing where the call waits for ever.
  unfoldable pub select : Option ℕ → Action (Endpoint W) Bool
  select timeout e = let (ready, e') = calling (λ d. sys.select d timeout) e in (is_ready ready, e')

  -- The address that the system knows; if it knows none, that of the peer.
  unfoldable pub get_address : Endpoint W → Option Address
  get_address e = elim (sys.getsockname e.socket.descriptor e.system) [
    | none ↦ e.socket.address
    | some a ↦ some a
  ]

  -- A socket for a peer, on the same descriptor.
  unfoldable pub accept : Address → Endpoint W → LinuxSocket
  accept address e = record (of_descriptor e.socket.descriptor) { address = some address }

  unfoldable pub connect : Address → Endpoint W → Endpoint W
  connect address e = record e { socket = record (e.socket) { address = some address } }

  -- The result of `setsockopt` is not looked at.
  unfoldable pub set_options : ℤ → Endpoint W → Endpoint W
  set_options option e = (calling (λ d. sys.setsockopt d option) e).1

  -- There is nothing to listen for.
  unfoldable pub listen : ℤ → Endpoint W → Endpoint W
  listen backlog e = e

  -- `raw_send`: to the address of the peer, which the socket must know.
  unfoldable pub raw_send : Bytes → Action (Endpoint W) Unit
  raw_send message e = elim (e.socket.address) [
    | none ↦ (err undefined_behaviour, e)
    | some a ↦
        let (size, e') = calling (λ d. sys.sendto d message a) e in
        (if leb_ℤ size (pos 0) then err socket_error else ok tt, e')
  ]

  -- What one `recvfrom` brought, and from whom.
  unfoldable pub raw_receive : ℤ → Action (Endpoint W) (Bytes × Address)
  raw_receive flags e =
      let (came, e') = calling (λ d. sys.recvfrom d buffer_size flags) e in
      elim came [
        | none ↦ (err socket_error, e')
        | some (m, a) ↦ elim m [ [] ↦ (err socket_error, e') | b ∷ bs ↦ (ok (b ∷ bs, a), e') ]
      ]

  -- `update()`, which leaves it to the server to find the socket of the peer.
  unfoldable pub update : Action (Endpoint W) (Bytes × Address)
  unfolding raw_receive
  update e = raw_receive (pos 0) e

  abbrev pub get_descriptor : Endpoint W → ℕ
  get_descriptor e = e.socket.descriptor
