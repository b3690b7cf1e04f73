-- ===== src/Transfer/System.antt =====
-- What the sockets ask of the system (src/transfer/tcp/LinuxSocket.cpp,
-- src/transfer/udp/LinuxSocket.cpp), and the addresses that both of them make.
use asinc_roulette.Base.{ℕ, ◌++◌, ◌∷◌, [], Bool, not, Option, none, some, if◌then◌else◌}
use asinc_roulette.Base.Int.{ℤ, pos, ltb_ℤ, int_beq}
use asinc_roulette.Failure.{Result, ok, err, socket_error}
use asinc_roulette.Transfer.Framing.{Bytes}

-- `sockaddr_in`: both fields in the order of the network, read as numbers of the machine.
pub record Address : Type 0 where
  pub sin_port : ℕ
  pub s_addr : ℕ

-- The type of a socket.
pub data Kind : Type 0 where
  stream datagram : Kind

-- The system calls, each with its result and the state of the system after it; a descriptor stands
-- as its bit pattern.
pub record System (W : Type 0) : Type 0 where
  pub socket : Kind → W → ℕ × W
  pub bind : ℕ → Address → W → ℤ × W
  pub listen : ℕ → ℤ → W → ℤ × W
  pub connect : ℕ → Address → W → ℤ × W
  -- nothing if the call failed
  pub accept : ℕ → W → Option ℕ × W
  pub getsockname : ℕ → W → Option Address
  pub shutdown : ℕ → W → ℤ × W
  pub close : ℕ → W → ℤ × W
  -- descriptor and timeout, nothing for no timeout
  pub select : ℕ → Option ℕ → W → ℤ × W
  pub setsockopt : ℕ → ℤ → W → ℤ × W
  -- descriptor, size and flags; nothing if the call failed
  pub recv : ℕ → ℕ → ℤ → W → Option Bytes × W
  pub recvfrom : ℕ → ℕ → ℤ → W → Option (Bytes × Address) × W
  pub send : ℕ → Bytes → W → ℤ × W
  pub sendto : ℕ → Bytes → Address → W → ℤ × W

-- The functions of the system that convert, and the output of a number.
pub record Conversions : Type 0 where
  pub htons : ℕ → ℕ
  pub inet_addr : Bytes → ℕ
  pub inet_ntoa : ℕ → Bytes
  pub print : ℕ → Bytes

-- `if (success < 0) throw error(...);`
abbrev pub checked : ℤ → Result Unit
checked success = if ltb_ℤ success (pos 0) then err socket_error else ok tt

-- What `select` makes of the number of descriptors that are ready.
abbrev pub is_ready : ℤ → Result Bool
is_ready ready = if ltb_ℤ ready (pos 0) then err socket_error else ok (not (int_beq ready (pos 0)))

-- `INADDR_ANY`
abbrev pub inaddr_any : ℕ
inaddr_any = 0

module _ (conversions : Conversions) where
  -- `make_address` with a host
  unfoldable pub make_address : Bytes → ℕ → Address
  make_address host port = record {
    sin_port = conversions.htons port;
    s_addr = conversions.inet_addr host;
  }

  unfoldable pub make_any_address : ℕ → Address
  make_any_address port = record { sin_port = conversions.htons port; s_addr = inaddr_any }

  -- `operator<<` of an address
  unfoldable pub print_address : Address → Bytes
  print_address address =
      conversions.inet_ntoa address.s_addr ++ b':' ∷ conversions.print address.sin_port

  -- `<invalid-address>`
  unfoldable pub write : Option Address → Bytes
  unfolding print_address
  write none =
      b'<' ∷ b'i' ∷ b'n' ∷ b'v' ∷ b'a' ∷ b'l' ∷ b'i' ∷ b'd' ∷ b'-' ∷ b'a' ∷ b'd' ∷ b'd' ∷ b'r'
      ∷ b'e' ∷ b's' ∷ b's' ∷ b'>' ∷ []
  write (some address) = print_address address
