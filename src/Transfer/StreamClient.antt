-- ===== src/Transfer/StreamClient.antt =====
-- The client of the stream transport (src/transfer/tcp/TransferClient.cpp): a thread that reads, a
-- thread that writes, and `stop`, which any of them may call.
use asinc_roulette.Base.{
  ℕ, zero, suc, ◌+◌, ◌≡◌, refl, Bool, true, false, not, Option, none, some, Bool-cases, inl, inr,
  if◌then◌else◌,
}
use asinc_roulette.Failure.{Result, ok, err, socket_error, terminated}
use asinc_roulette.Stateful.{Action}
use asinc_roulette.Transfer.Framing.{Bytes}
use asinc_roulette.Transfer.StreamServer.State.{StreamSocket}

pub record TransferClient (K W : Type 0) : Type 0 where
  pub stop_requests : Bool
  -- whether `input_thread` holds a thread that was not joined
  pub joinable : Bool
  pub socket : K
  -- how often the socket was closed
  pub closings : ℕ
  -- the data of the derived class
  pub app : W

module _ {K W : Type 0} ⦃net : StreamSocket K⦄ where
  -- Under the mutex.
  unfoldable pub stop : TransferClient K W → TransferClient K W
  stop c = if c.stop_requests then c else record c {
    stop_requests = true;
    socket = net.close (net.shutdown c.socket);
    closings = c.closings + 1;
  }

  -- The loop of a thread, for the rounds that are known: an error of the socket stops the client,
  -- any other ends the program. At the end the client is stopped.
  unfoldable pub loop :
      Action (TransferClient K W) Unit
      → ℕ
      → TransferClient K W
      → Option (Result Unit × TransferClient K W)
  unfolding stop
  loop function zero c = if c.stop_requests then some (ok tt, stop c) else none
  loop function (suc rounds) c =
      if c.stop_requests
      then some (ok tt, stop c)
      else let (r, c') = function c in
        elim r [
          | ok _ ↦ loop function rounds c'
          | err socket_error ↦ loop function rounds (stop c')
          | err e ↦ some (err terminated, c')
        ]

  -- New threads take the places of the old ones: if those were not joined, the program ends.
  unfoldable pub start : Action (TransferClient K W) Bool
  start c =
      let c' = record c { stop_requests = false } in
      if not c.stop_requests
      then (ok false, c)
      else if c.joinable
      then (err terminated, c')
      else (ok true, record c' { joinable = true })

  unfoldable pub join : TransferClient K W → TransferClient K W
  join c = record c { joinable = false }

  abbrev pub on_socket : {A : Type 0} → Action K A → Action (TransferClient K W) A
  on_socket m c = let (r, k) = m c.socket in (r, record c { socket = k })

  unfoldable pub send : Bytes → Action (TransferClient K W) Unit
  send message c = on_socket (net.send message) c

  module _ (input : Bytes → Action (TransferClient K W) Unit) where
    -- `while (!socket->empty()) input(socket->receive())`, with the rounds left
    unfoldable pub read_all : ℕ → TransferClient K W → Option (Result Unit × TransferClient K W)
    read_all zero c = none
    read_all (suc rounds) c =
        if net.empty c.socket
        then some (ok tt, c)
        else let (r, c') = on_socket net.receive c in
          elim r [
            | err e ↦ some (err e, c')
            | ok message ↦
                let (q, c'') = input message c' in
                elim q [ err e ↦ some (err e, c'') | ok _ ↦ read_all rounds c'' ]
          ]

    -- One round of the thread that reads; `ready` is what `select` returns.
    unfoldable pub input_round :
        ℕ → Result Bool → TransferClient K W → Option (Result Unit × TransferClient K W)
    unfolding read_all
    input_round rounds ready c = elim ready [
      | err e ↦ some (err e, c)
      | ok there ↦
          let (r, c') = on_socket net.update c in
          if there
          then elim r [ err e ↦ some (err e, c') | ok _ ↦ read_all rounds c' ]
          else some (ok tt, c)
    ]

  -- However often it is called, `stop` closes the socket once.
  stop-stop : (c : TransferClient K W) → stop (stop c) ≡ stop c
  unfolding stop
  stop-stop c = elim (Bool-cases c.stop_requests) [
    | inl stopped ↦ rw (stop, stopped) refl
    | inr running ↦ rw (stop, running) refl
  ]

  stop-stopped : (c : TransferClient K W) → (stop c).stop_requests ≡ true
  unfolding stop
  stop-stopped c = elim (Bool-cases c.stop_requests) [
    | inl stopped ↦ rw (stop, stopped) refl
    | inr running ↦ rw (stop, running) refl
  ]

  -- Once the client is stopped, a thread makes no further round, whatever it would do.
  loop-stopped :
      (function : Action (TransferClient K W) Unit) (rounds : ℕ) (c : TransferClient K W)
      → c.stop_requests ≡ true
      → loop function rounds c ≡ some (ok tt, stop c)
  unfolding loop
  loop-stopped function zero c stopped = rw (loop, stopped) refl
  loop-stopped function (suc rounds) c stopped = rw (loop, stopped) refl
