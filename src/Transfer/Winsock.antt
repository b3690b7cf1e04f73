-- ===== src/Transfer/Winsock.antt =====
-- The socket for Windows (src/transfer/tcp/WinSocket.h, src/transfer/tcp/WinSocket.cpp): it moves
-- blocks of 512 bytes.
pub mod Blocks
pub mod Roundtrip
mod Tests
use asinc_roulette.Base.{
  ℕ, zero, suc, ◌+◌, ◌*◌, ◌%◌, ◌^◌, String, Bool, true, false, not, List, [], ◌∷◌, ◌++◌, Option,
  none, some, length, take, drop, ltb, leb, ◌==◌, nat_eq, if◌then◌else◌,
}
use asinc_roulette.Base.Int.{ℤ, pos, negsuc, ltb_ℤ, leb_ℤ, int_beq}
use asinc_roulette.Failure.{Result, ok, err, socket_error, undefined_behaviour}
use asinc_roulette.Stateful.{Action, continue}
use asinc_roulette.Transfer.Framing.{Bytes, delimiter, find_delimiter}
use asinc_roulette.Transfer.Tcp.{substr}

-- The functions of Winsock: what they return, and the state of the system after it. A pointer to
-- `addrinfo` is a number.
pub record Winsock (W : Type 0) : Type 0 where
  pub startup : W → ℤ × W
  pub cleanup : W → W
  -- domain, type and protocol; nothing for `INVALID_SOCKET`
  pub socket : ℤ → ℤ → ℤ → W → Option ℕ × W
  pub connect : ℕ → ℕ → W → ℤ × W
  pub closesocket : ℕ → W → ℤ × W
  -- the bytes that came, nothing if the call failed
  pub recv : ℕ → ℕ → W → Option Bytes × W
  pub send : ℕ → Bytes → W → ℤ × W
  pub select : ℕ → Option ℕ → W → ℤ × W
  -- domain, type, protocol, host and port
  pub getaddrinfo : ℤ → ℤ → ℤ → String → String → W → Result ℕ × W

-- A socket and the system under it.
pub record WinSocket (W : Type 0) : Type 0 where
  pub descriptor : ℕ
  pub address_info : Option ℕ
  pub system : W

abbrev pub buffer_size : ℕ
buffer_size = 512

-- `SOCKET_ERROR`
abbrev pub failed : ℤ
failed = negsuc 0

module _ {W : Type 0} ⦃win : Winsock W⦄ where
  -- `WinSocket::startup`
  unfoldable pub startup : Action W Unit
  startup w =
      let (startup_status, w') = win.startup w in
      (if int_beq startup_status (pos 0) then ok tt else err socket_error, w')

  unfoldable pub init : ℤ → ℤ → ℤ → Action W ℕ
  unfolding startup
  init domain type protocol w =
      let (r, w') = startup w in
      let (descriptor, w'') = win.socket domain type protocol w' in
      elim r [
        | err e ↦ (err e, w')
        | ok _ ↦ elim descriptor [
          | none ↦ (err socket_error, win.cleanup w'')
          | some d ↦ (ok d, w'')
        ]
      ]

  -- A call with the descriptor of the socket.
  abbrev pub calling : {B : Type 0} → (ℕ → W → B × W) → WinSocket W → B × WinSocket W
  calling f s = let (b, w) = f s.descriptor s.system in (b, record s { system = w })

  -- The socket remembers the address also if the call fails.
  unfoldable pub connect : ℕ → Action (WinSocket W) Unit
  connect address s =
      let (connect_status, s') = calling (λ d. win.connect d address) s in
      (
        if int_beq connect_status failed then err socket_error else ok tt,
        record s' { address_info = some address },
      )

  -- `safe_shutdown` and `safe_close` are the same call.
  unfoldable pub safe_close : WinSocket W → ℤ × WinSocket W
  safe_close s = calling win.closesocket s

  -- `close` and `shutdown`
  unfoldable pub close : Action (WinSocket W) Unit
  unfolding safe_close
  close s =
      let (success, s') = safe_close s in
      (if ltb_ℤ success (pos 0) then err socket_error else ok tt, s')

  -- The loop of `raw_receive`, with the rounds left: what does not fit into the 512 bytes of
  -- `message` is written past its end.
  unfoldable pub receive_loop : ℕ → Bytes → Action (WinSocket W) Bytes
  receive_loop zero message s = (ok message, s)
  receive_loop (suc rounds) message s =
      let (chunk, s') = calling (λ d. win.recv d buffer_size) s in
      if not (ltb (length message) buffer_size) then (ok message, s) else elim chunk [
        | none ↦ (err socket_error, s')
        | some [] ↦ (err socket_error, s')
        | some (b ∷ bs) ↦
            if ltb buffer_size (length message + length (b ∷ bs))
            then (err undefined_behaviour, s')
            else receive_loop rounds (message ++ b ∷ bs) s'
      ]

  -- Each round that goes on adds a byte, so 512 rounds are enough.
  unfoldable pub raw_receive : Action (WinSocket W) Bytes
  unfolding receive_loop
  raw_receive s = receive_loop buffer_size [] s

  -- The loop of `receive`, which looks for the delimiter in the last block alone; `rounds` is how
  -- many blocks are known to come. `offset`, as it is after `offset++`, is an `int`.
  unfoldable pub search_loop : ℕ → ℕ → Bytes → WinSocket W → Option (Result Bytes × WinSocket W)
  search_loop zero offset buffer s = none
  search_loop (suc rounds) offset buffer s =
      let (r, s') = raw_receive s in
      elim r [
        | err e ↦ some (err e, s')
        | ok bytes ↦ elim (ltb offset (2 ^ 31)) [
          | false ↦ some (err undefined_behaviour, s')
          | true ↦ elim (find_delimiter bytes) [
            | none ↦ search_loop rounds (offset + 1) (buffer ++ bytes) s'
            | some (before, behind) ↦
                some (ok (take (offset * buffer_size + length before) (buffer ++ bytes)), s')
          ]
        ]
      ]

  unfoldable pub receive : ℕ → WinSocket W → Option (Result Bytes × WinSocket W)
  unfolding search_loop
  receive rounds s = search_loop rounds 0 [] s

  unfoldable pub send_blocks : List Bytes → Action (WinSocket W) Unit
  send_blocks [] s = (ok tt, s)
  send_blocks (block ∷ blocks) s =
      let (size, s') = calling (λ d. win.send d block) s in
      if leb_ℤ size (pos 0) then (err socket_error, s') else send_blocks blocks s'

  abbrev pub unsupported : {B : Type 0} → Action (WinSocket W) B
  unsupported s = (err socket_error, s)

  unfoldable pub listen : ℤ → Action (WinSocket W) Unit
  listen backlog = unsupported

  unfoldable pub set_options : ℤ → Action (WinSocket W) Unit
  set_options option = unsupported

  unfoldable pub bind : ℕ → Action (WinSocket W) Unit
  bind address = unsupported

  unfoldable pub accept : Action (WinSocket W) ℕ
  accept = unsupported

  abbrev pub get_address : WinSocket W → Option ℕ
  get_address s = s.address_info

  -- `timeout` is nothing where the call waits for ever.
  unfoldable pub select : Option ℕ → Action (WinSocket W) Bool
  select timeout s =
      let (ready, s') = calling (λ d. win.select d timeout) s in
      (if ltb_ℤ ready (pos 0) then err socket_error else ok (not (int_beq ready (pos 0))), s')

  -- `::address`
  unfoldable pub address : ℤ → ℤ → ℤ → String → String → Action W ℕ
  address domain type protocol host port w =
      let (r, w') = win.getaddrinfo domain type protocol host port w in
      (elim r [ err e ↦ err socket_error | ok a ↦ ok a ], w')

module _ (stray : ℕ → ℕ → ℕ) where
  -- Some bytes that stand behind a string in memory.
  unfoldable pub strays : ℕ → ℕ → Bytes
  strays zero left = []
  strays (suc n) left = stray left n ∷ strays n left

  -- What `send` reads from `sub_data.c_str()`: always 512 bytes, behind a shorter string a 0 and
  -- what happens to stand behind it.
  unfoldable pub block : ℕ → Bytes → Bytes
  unfolding strays
  block left message =
      let right = left + buffer_size in
      take buffer_size (substr left right message ++ 0 ∷ strays buffer_size left)

  -- The loop of `send`, with the rounds left; `left` is an `unsigned`.
  unfoldable pub blocks_from : ℕ → ℕ → Bytes → List Bytes
  unfolding block
  blocks_from zero left message = []
  blocks_from (suc rounds) left message =
      let rest = blocks_from rounds ((left + buffer_size) % 2 ^ 32) message in
      if ltb left (length message) then block left message ∷ rest else []

  -- The length is rounds enough if it is at most 2^32 - 512; the loop of the code never ends for a
  -- longer message, and this is only what its first rounds send.
  unfoldable pub blocks : Bytes → List Bytes
  unfolding blocks_from
  blocks message = let framed = message ++ delimiter in blocks_from (length framed) 0 framed

  unfoldable pub send : {W : Type 0} ⦃win : Winsock W⦄ → Bytes → Action (WinSocket W) Unit
  unfolding blocks send_blocks
  send message s = send_blocks (blocks message) s
