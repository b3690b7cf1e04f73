-- ===== src/Transfer/Udp.antt =====
-- The datagram socket (src/transfer/udp/LinuxSocket.h, src/transfer/udp/LinuxSocket.cpp): a message
-- is cut into numbered packages, which the peer acknowledges. A `char` stands as its value modulo
-- 256, a datagram as a list of bytes.
pub mod Packages
pub mod Calls
pub mod Delivery
pub mod Network
pub mod Arrivals
pub mod Standing
pub mod Outgoing
pub mod Unreliable
pub mod Resending
pub mod Retransmission
use asinc_roulette.Base.{
  ℕ, zero, suc, ◌+◌, ◌-◌, ◌*◌, ◌/◌, ◌%◌, ◌^◌, String, Bool, true, false, not, ◌&&◌, ◌||◌, List, [],
  ◌∷◌, ◌++◌, Option, none, some, length, take, drop, ltb, leb, ◌==◌, nat_eq, get_elem?,
  if◌then◌else◌,
}
use Prim.Native.Nat.{min}
use asinc_roulette.Failure.{Result, ok, err, socket_error}
use asinc_roulette.Transfer.Framing.{Bytes, delimiter, messages}
use asinc_roulette.Transfer.Tcp.{substr}

abbrev pub head : ℕ
head = 4

abbrev pub wait_package : ℕ
wait_package = 0

abbrev pub buffer_size : ℕ
buffer_size = 512

abbrev pub max_fragmentation_power : ℕ
max_fragmentation_power = 256

abbrev pub disconnect_limit : ℕ
disconnect_limit = 60 * 1000

abbrev pub retry_limit : ℕ
retry_limit = 1000

abbrev pub success_byte : ℕ
success_byte = b'S'

abbrev pub user_byte : ℕ
user_byte = b'U'

abbrev pub exit_byte : ℕ
exit_byte = b'E'

-- The fields of `LinuxSocket`, and the datagrams that it gave to `sendto`, oldest first.
pub record Socket : Type 0 where
  pub buffer : Bytes
  pub send_buffer : List (List Bytes)
  pub receive_buffer : List Bytes
  pub disconnect_timeout : ℕ
  pub retry_timeout : ℕ
  pub package_id : ℕ
  pub expected_id : ℕ
  pub expected_number : ℕ
  pub expected_numbers : ℕ
  pub sent : List Bytes

abbrev pub fresh : Socket
fresh = record {
  buffer = [];
  send_buffer = [];
  receive_buffer = [];
  disconnect_timeout = 0;
  retry_timeout = 0;
  package_id = 0;
  expected_id = 0;
  expected_number = 0;
  expected_numbers = wait_package;
  sent = [];
}

abbrev pub next_char : ℕ → ℕ
next_char c = (c + 1) % 256

abbrev pub message_size : ℕ
message_size = buffer_size - head

-- The package of a message at a position: `substr(left, right)` takes `right` bytes, not
-- `right - left`.
unfoldable pub fragment : ℕ → ℕ → Bytes → ℕ → Bytes
fragment package_id package_numbers message package_number =
    let left = package_number * message_size in
    let right = min (left + message_size) (length message) in
    user_byte
    ∷ package_id
    ∷ package_number % 256
    ∷ package_numbers % 256
    ∷ substr left right message

unfoldable pub packages_from : ℕ → ℕ → ℕ → ℕ → Bytes → List Bytes
packages_from zero number package_id package_numbers message = []
packages_from (suc rounds) number package_id package_numbers message =
    fragment package_id package_numbers message number
    ∷ packages_from rounds (number + 1) package_id package_numbers message

-- What `recvfrom` into a buffer of 512 bytes leaves of a datagram (`update()`).
unfoldable pub arrive : Bytes → Bytes
arrive datagram = take buffer_size datagram

-- The complete messages go from `buffer` to `receive_buffer`.
unfoldable pub take_in : Bytes → Socket → Socket
take_in payload s =
    let (complete, rest) = messages (s.buffer ++ payload) in
    record s { retry_timeout = 0; buffer = rest; receive_buffer = s.receive_buffer ++ complete }

-- A `SUCCESS` package: the oldest message is not sent again.
unfoldable pub acknowledged : Socket → Socket
acknowledged s = elim s.send_buffer [
  | [] ↦ s
  | oldest ∷ rest ↦ record s { send_buffer = rest; retry_timeout = 0 }
]

module _ (refused : Bytes → Bool) where
  -- `raw_send`; `refused` says of which datagrams `sendto` reports a failure.
  unfoldable pub raw_send : Bytes → Socket → Result Unit × Socket
  raw_send datagram s =
      if refused datagram
      then (err socket_error, s)
      else (ok tt, record s { sent = s.sent ++ datagram ∷ [] })

  unfoldable pub raw_sends : List Bytes → Socket → Result Unit × Socket
  unfolding raw_send
  raw_sends [] s = (ok tt, s)
  raw_sends (d ∷ ds) s =
      let (r, s') = raw_send d s in elim r [ err e ↦ (err e, s') | ok _ ↦ raw_sends ds s' ]

  unfoldable pub buffered_send : Bytes → Socket → Result Unit × Socket
  unfolding raw_sends packages_from
  buffered_send message s =
      let framed = message ++ delimiter in
      let package_numbers = length framed / message_size + 1 in
      let buffer = packages_from package_numbers 0 s.package_id package_numbers framed in
      let (r, s') = raw_sends buffer (record s { disconnect_timeout = 0 }) in
      if leb (max_fragmentation_power * message_size) (length framed)
      then (err socket_error, s)
      else elim r [
        | err e ↦ (err e, s')
        | ok _ ↦ (
          ok tt,
          record s' {
            package_id = next_char s'.package_id;
            send_buffer = s'.send_buffer ++ buffer ∷ [];
          },
        )
      ]

  unfoldable pub resend : List (List Bytes) → Socket → Result Unit × Socket
  unfolding raw_sends
  resend [] s = (ok tt, s)
  resend (ms ∷ rest) s =
      let (r, s') = raw_sends ms s in elim r [ err e ↦ (err e, s') | ok _ ↦ resend rest s' ]

  -- `update(size_t timeout)`: whether the peer has been silent for too long.
  unfoldable pub update_timeout : ℕ → Socket → Result Bool × Socket
  unfolding resend
  update_timeout timeout s =
      let s₁ : Socket = record s {
        disconnect_timeout = (s.disconnect_timeout + timeout) % 2 ^ 64;
        retry_timeout = (s.retry_timeout + timeout) % 2 ^ 64;
      } in
      let (r, s₂) = resend s₁.send_buffer s₁ in
      if ltb disconnect_limit s₁.disconnect_timeout
      then (ok true, s₁)
      else if ltb retry_limit s₁.retry_timeout
      then elim r [ err e ↦ (err e, s₂) | ok _ ↦ (ok false, record s₂ { retry_timeout = 0 }) ]
      else (ok false, s₁)

  -- `close()`
  unfoldable pub close : Socket → Result Unit × Socket
  unfolding raw_send
  close s = raw_send (exit_byte ∷ []) s

  -- A package that is the next one: the last one of a message is acknowledged.
  unfoldable pub accept_package : ℕ → Bytes → Socket → Result Bool × Socket
  unfolding take_in raw_send
  accept_package package_numbers payload s =
      let number = next_char s.expected_number in
      let done : Socket = record s {
        expected_numbers = wait_package;
        expected_number = 0;
        expected_id = next_char s.expected_id;
      } in
      let (r, s') = raw_send (success_byte ∷ []) done in
      if number == package_numbers
      then elim r [ err e ↦ (err e, s') | ok _ ↦ (ok false, take_in payload s') ]
      else (
        ok false,
        take_in payload (record s { expected_numbers = package_numbers; expected_number = number }),
      )

  -- A `USER` package that is the next one of the expected message.
  unfoldable pub user_package : Bytes → Socket → Result Bool × Socket
  unfolding accept_package
  user_package (tag ∷ package_id ∷ package_number ∷ package_numbers ∷ payload) s =
      if not (package_id == s.expected_id) || not (package_number == s.expected_number)
      then (ok false, s)
      else if not (s.expected_numbers == wait_package)
          && not (package_numbers == s.expected_numbers)
      then (ok false, s)
      else accept_package package_numbers payload s
  user_package short s = (err socket_error, s)

  unfoldable pub received : Bytes → Socket → Result Bool × Socket
  unfolding user_package acknowledged
  received [] s = (err socket_error, s)
  received (package_type ∷ rest) s =
      if package_type == exit_byte
      then (ok true, s)
      else if package_type == success_byte
      then (ok false, acknowledged s)
      else if not (package_type == user_byte)
      then (err socket_error, s)
      else user_package (package_type ∷ rest) s

  -- `update(const std::string &data)`: whether the peer has left.
  unfoldable pub update : Bytes → Socket → Result Bool × Socket
  unfolding received
  update datagram s =
      if ltb buffer_size (length datagram)
      then (err socket_error, record s { disconnect_timeout = 0 })
      else received datagram (record s { disconnect_timeout = 0 })

-- `receive()`
unfoldable pub receive : Socket → Result Bytes × Socket
receive s = elim s.receive_buffer [
  | [] ↦ (err socket_error, s)
  | message ∷ rest ↦ (ok message, record s { receive_buffer = rest })
]
