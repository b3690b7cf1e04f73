-- ===== src/Transfer/DatagramClient.antt =====
-- The client of the datagram transport (src/transfer/udp/TransferClient.cpp): a thread that reads, a
-- thread that writes, and `stop`, which any of them may call.
use asinc_roulette.Base.{
  ℕ, zero, suc, ◌≡◌, refl, Bool, true, false, not, Option, none, some, if◌then◌else◌,
}
use asinc_roulette.Failure.{Result, ok, err, socket_error, terminated}
use asinc_roulette.Stateful.{Action}
use asinc_roulette.Transfer.Framing.{Bytes}
use asinc_roulette.Transfer.DatagramServer.State.{DatagramSocket, timeout_msec}

pub record TransferClient (K W : Type 0) : Type 0 where
  pub stop_requests : Bool
  -- whether `input_thread` holds a thread that was not joined
  pub joinable : Bool
  pub socket : K
  -- the data of the derived class
  pub app : W

module _ {K W : Type 0} ⦃net : DatagramSocket K⦄ where
  abbrev pub on_socket : {A : Type 0} → Action K A → Action (TransferClient K W) A
  on_socket m c = let (r, k) = m c.socket in (r, record c { socket = k })

  -- Under the mutex. To close a socket is to send a datagram, which may fail.
  unfoldable pub stop : Action (TransferClient K W) Unit
  stop c =
      if c.stop_requests
      then (ok tt, c)
      else on_socket net.close (record c { stop_requests = true })

  -- The call of `stop` that handles an error of the socket: what it throws ends the program.
  abbrev pub stopped_by_error : Result Unit × TransferClient K W → Result Unit × TransferClient K W
  stopped_by_error (err e, c) = (err terminated, c)
  stopped_by_error (ok _, c) = (ok tt, c)

  -- The loop of a thread, for the rounds that are known.
  unfoldable pub loop :
      Action (TransferClient K W) Unit
      → ℕ
      → TransferClient K W
      → Option (Result Unit × TransferClient K W)
  unfolding stop
  loop function zero c = if c.stop_requests then some (stop c) else none
  loop function (suc rounds) c =
      if c.stop_requests
      then some (stop c)
      else let (r, c') = function c in
        let (q, c'') = stopped_by_error (stop c') in
        elim r [
          | ok _ ↦ loop function rounds c'
          | err socket_error ↦ elim q [
            | err e ↦ some (err e, c'')
            | ok _ ↦ loop function rounds c''
          ]
          | err e ↦ some (err terminated, c')
        ]

  -- New threads take the places of the old ones: if those were not joined, the program ends.
  unfoldable pub start : Action (TransferClient K W) Bool
  start c =
      let c' = record c { stop_requests = false } in
      if not c.stop_requests
      then (ok false, c)
      else if c.joinable
      then (err terminated, c')
      else (ok true, record c' { joinable = true })

  unfoldable pub join : TransferClient K W → TransferClient K W
  join c = record c { joinable = false }

  unfoldable pub send : Bytes → Action (TransferClient K W) Unit
  send message c = on_socket (net.send message) c

  module _ (input : Bytes → Action (TransferClient K W) Unit) where
    -- `while (!socket->empty()) input(socket->receive())`, with the rounds left
    unfoldable pub read_all : ℕ → TransferClient K W → Option (Result Unit × TransferClient K W)
    read_all zero c = none
    read_all (suc rounds) c =
        if net.empty c.socket
        then some (ok tt, c)
        else let (r, c') = on_socket net.receive c in
          elim r [
            | err e ↦ some (err e, c')
            | ok message ↦
                let (q, c'') = input message c' in
                elim q [ err e ↦ some (err e, c'') | ok _ ↦ read_all rounds c'' ]
          ]

    -- What the reading thread does with a datagram. Whether the server has left is not looked at.
    abbrev pub take_datagram :
        ℕ → Result Bytes → TransferClient K W → Option (Result Unit × TransferClient K W)
    unfolding read_all
    take_datagram rounds (err e) c = some (err e, c)
    take_datagram rounds (ok datagram) c =
        let (r, c') = on_socket (net.update datagram) c in
        elim r [ err e ↦ some (err e, c') | ok _ ↦ read_all rounds c' ]

    -- One round of the thread that reads; `ready` is what `select` returns, `datagram` what
    -- `update()` reads. Whether the server has been silent for too long is not looked at.
    unfoldable pub input_round :
        ℕ
        → Result Bool
        → Result Bytes
        → TransferClient K W
        → Option (Result Unit × TransferClient K W)
    unfolding read_all
    input_round rounds ready datagram c = elim ready [
      | err e ↦ some (err e, c)
      | ok there ↦
          let (r, c') = on_socket (net.update_timeout timeout_msec) c in
          if there
          then take_datagram rounds datagram c
          else elim r [ err e ↦ some (err e, c') | ok _ ↦ some (ok tt, c') ]
    ]

  -- Once the client is stopped, a thread makes no further round, whatever it would do, and sends
  -- nothing more.
  loop-stopped :
      (function : Action (TransferClient K W) Unit) (rounds : ℕ) (c : TransferClient K W)
      → c.stop_requests ≡ true
      → loop function rounds c ≡ some (stop c)
  unfolding loop
  loop-stopped function zero c stopped = rw (loop, stopped) refl
  loop-stopped function (suc rounds) c stopped = rw (loop, stopped) refl
