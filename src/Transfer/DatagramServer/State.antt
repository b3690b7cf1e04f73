-- ===== src/Transfer/DatagramServer/State.antt =====
-- The data of `class TransferServer` (src/transfer/udp/TransferServer.h), what it asks of its
-- sockets, and the numbers it gives to addresses (src/transfer/udp/LinuxSocket.cpp, `concat`).
use asinc_roulette.Base.{
  ℕ, zero, suc, ◌+◌, ◌*◌, ◌/◌, ◌%◌, ◌^◌, Bool, true, false, nat_eq, ◌==◌, List, none, some,
  if◌then◌else◌,
}
use asinc_roulette.Base.Map.{Map, lookup, insert}
use asinc_roulette.Failure.{Result, err, undefined_behaviour}
use asinc_roulette.Stateful.{Action}
use asinc_roulette.Transfer.Framing.{Bytes}
use asinc_roulette.Transfer.System.{Address}

-- `a | b`, for the bits that are left
unfoldable pub bit_or : ℕ → ℕ → ℕ → ℕ
bit_or zero a b = 0
bit_or (suc bits) a b =
    let rest = bit_or bits (a / 2) (b / 2) in if a % 2 + b % 2 == 0 then 2 * rest else 2 * rest + 1

-- The shift is by `sizeof(in_addr_t)`, which is 4.
unfoldable pub concat : Address → ℕ
unfolding bit_or
concat address = bit_or 32 (address.sin_port * 2 ^ 4) address.s_addr

-- `Socket` as the server uses it. The system calls may fail.
pub record DatagramSocket (K : Type 0) : Type 0 where
  pub accept : Address → K
  pub update : Bytes → Action K Bool
  pub update_timeout : ℕ → Action K Bool
  pub empty : K → Bool
  pub receive : Action K Bytes
  pub send : Bytes → Action K Unit
  pub close : Action K Unit
  pub get_address : K → Address

pub record Connection (K : Type 0) : Type 0 where
  pub id : ℕ
  pub socket : K
  pub free : Bool
  pub close : Bool

-- `Connection(id, socket)`
abbrev pub connected : {K : Type 0} → ℕ → K → Connection K
connected id socket = record { id = id; socket = socket; free = true; close = false }

-- `TIMEOUT_MSEC`
abbrev pub timeout_msec : ℕ
timeout_msec = 1000

pub record TransferServer (K W : Type 0) : Type 0 where
  pub stop_requests : Bool
  -- whether `thread` holds a thread that was not joined
  pub joinable : Bool
  -- Each id with the object its pointer leads to. An id can come back with another object while a
  -- task keeps the old one.
  pub connections : Map ℕ ℕ
  pub heap : Map ℕ (Connection K)
  -- the next object
  pub next : ℕ
  -- the objects of the tasks that the pool has not finished
  pub tasks : List ℕ
  -- the data of the derived class
  pub app : W

-- The handlers of the derived class that the server calls.
pub record Events (W : Type 0) : Type 0 where
  pub connect_handle : ℕ → Action W Unit
  pub disconnect_handle : ℕ → Action W Unit

module _ {K W : Type 0} where
  -- A write to an object.
  unfoldable pub change :
      ℕ → (Connection K → Connection K) → TransferServer K W → TransferServer K W
  change p f s = elim (lookup p s.heap) [
    | none ↦ s
    | some c ↦ record s { heap = insert p (f c) s.heap }
  ]

  unfoldable pub is_closed : ℕ → TransferServer K W → Bool
  is_closed p s = elim (lookup p s.heap) [ none ↦ false | some c ↦ c.close ]

  abbrev pub put_socket :
      {A : Type 0}
      → ℕ
      → Result A × K
      → Connection K
      → TransferServer K W
      → Result A × TransferServer K W
  put_socket p (r, k) c s = (r, record s { heap = insert p (record c { socket = k }) s.heap })

  -- An operation on the socket of an object.
  unfoldable pub on_socket : {A : Type 0} → ℕ → Action K A → Action (TransferServer K W) A
  on_socket p m s = elim (lookup p s.heap) [
    | none ↦ (err undefined_behaviour, s)
    | some c ↦ put_socket p (m c.socket) c s
  ]
