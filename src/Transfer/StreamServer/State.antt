-- ===== src/Transfer/StreamServer/State.antt =====
-- The data of `class TransferServer` (src/transfer/tcp/TransferServer.h), what it asks of its
-- sockets, and what the class derived from it adds.
use asinc_roulette.Base.{ℕ, ◌≡◌, Bool, true, false, nat_eq, List, none, some, contains}
use asinc_roulette.Base.Map.{Map, lookup, insert}
use asinc_roulette.Stateful.{Action}
use asinc_roulette.Transfer.Framing.{Bytes}

-- `Socket` as the server uses it. The system calls may fail.
pub record StreamSocket (K : Type 0) : Type 0 where
  pub update : Action K Unit
  pub empty : K → Bool
  pub receive : Action K Bytes
  pub send : Bytes → Action K Unit
  pub shutdown : K → K
  pub close : K → K
  pub get_descriptor : K → ℕ
  pub get_address : K → Bytes

-- The operations of a socket keep its descriptor.
pub record KeepsDescriptor {K : Type 0} (net : StreamSocket K) : Type 0 where
  pub update : (k : K) → net.get_descriptor (net.update k).1 ≡ net.get_descriptor k
  pub receive : (k : K) → net.get_descriptor (net.receive k).1 ≡ net.get_descriptor k
  pub send : (m : Bytes) (k : K) → net.get_descriptor (net.send m k).1 ≡ net.get_descriptor k
  pub shutdown : (k : K) → net.get_descriptor (net.shutdown k) ≡ net.get_descriptor k
  pub close : (k : K) → net.get_descriptor (net.close k) ≡ net.get_descriptor k

pub record Connection (K : Type 0) : Type 0 where
  pub id : ℕ
  pub socket : K
  pub free : Bool
  pub close : Bool

-- `Connection(id, socket)`
abbrev pub connected : {K : Type 0} → ℕ → K → Connection K
connected id socket = record { id = id; socket = socket; free = true; close = false }

pub record TransferServer (K W : Type 0) : Type 0 where
  -- the descriptor of the listening socket
  pub listening : ℕ
  pub stop_requests : Bool
  -- whether `thread` holds a thread that was not joined
  pub joinable : Bool
  pub descriptors : Map ℕ ℕ
  -- The keys of `connections`. The pointer of a key leads to the object of that id: ids are given
  -- once, and a task keeps the object after its connection was erased.
  pub connections : List ℕ
  pub heap : Map ℕ (Connection K)
  -- a local variable of `run`
  pub max_id : ℕ
  -- the connections of the tasks that the pool has not finished
  pub tasks : List ℕ
  -- the data of the derived class
  pub app : W

-- The handlers of the derived class that are called under the server's mutex. They cannot use the
-- server: to lock the mutex again would never return.
pub record Events (W : Type 0) : Type 0 where
  pub connect_handle : ℕ → Action W Unit
  pub disconnect_handle : ℕ → Action W Unit

module _ {K W : Type 0} where
  -- A write to the object of an id.
  unfoldable pub change :
      ℕ → (Connection K → Connection K) → TransferServer K W → TransferServer K W
  change id f s = elim (lookup id s.heap) [
    | none ↦ s
    | some c ↦ record s { heap = insert id (f c) s.heap }
  ]

  unfoldable pub is_free : ℕ → TransferServer K W → Bool
  is_free id s = elim (lookup id s.heap) [ none ↦ true | some c ↦ c.free ]

  unfoldable pub is_closed : ℕ → TransferServer K W → Bool
  is_closed id s = elim (lookup id s.heap) [ none ↦ false | some c ↦ c.close ]

  abbrev pub is_connected : ℕ → TransferServer K W → Bool
  is_connected id s = contains id s.connections
