-- ===== src/Transfer/Tcp/Tests.antt =====
-- The theorem about two stream sockets at concrete messages and systems.
use asinc_roulette.Base.{arith, ◌≡◌, refl, List, [], ◌∷◌, ◌++◌, Option, none, some, length, nat_eq}
use mathlib.Core.List.{flatten}
use asinc_roulette.Base.Int.{pos}
use asinc_roulette.Failure.{ok}
use asinc_roulette.Stateful.{for_each}
use asinc_roulette.Transfer.Framing.{Bytes, find_delimiter}
use asinc_roulette.Transfer.System.{System}
use asinc_roulette.Transfer.Tcp
use asinc_roulette.Transfer.Tcp.{send_loop}
use asinc_roulette.Transfer.Tcp.Calls.{Endpoint, of_descriptor, send, send_chunk}
use asinc_roulette.Transfer.Tcp.Delivered.{TakesAll, done, next, reads, messages_delivered}

abbrev hello : Bytes
hello = 104 ∷ 101 ∷ 108 ∷ 108 ∷ 111 ∷ []

abbrev ok_message : Bytes
ok_message = 111 ∷ 107 ∷ []

-- The bytes that were sent, and the chunks that are to come.
abbrev Pipe : Type 0
Pipe = Bytes × List Bytes

abbrev come : Pipe → Option Bytes × Pipe
come (out, []) = (none, (out, []))
come (out, chunk ∷ chunks) = (some chunk, (out, chunks))

abbrev pipe : System Pipe
pipe = record {
  socket = λ kind w. (3, w);
  bind = λ d a w. (pos 0, w);
  listen = λ d n w. (pos 0, w);
  connect = λ d a w. (pos 0, w);
  accept = λ d w. (none, w);
  getsockname = λ d w. none;
  shutdown = λ d w. (pos 0, w);
  close = λ d w. (pos 0, w);
  select = λ d t w. (pos 1, w);
  setsockopt = λ d o w. (pos 0, w);
  recv = λ d size flags w. come w;
  recvfrom = λ d size flags w. (none, w);
  send = λ d m w. (pos (length m), (w.0 ++ m, w.1));
  sendto = λ d m a w. (pos (length m), w);
}

abbrev sender : Endpoint Pipe
sender = record { socket = of_descriptor 3; system = ([], []) }

abbrev pieces : List Bytes
pieces = (104 ∷ 101 ∷ []) ∷ (108 ∷ 108 ∷ 111 ∷ 13 ∷ []) ∷ (10 ∷ 111 ∷ 107 ∷ 13 ∷ 10 ∷ []) ∷ []

abbrev reader : Endpoint Pipe
reader = record { socket = of_descriptor 4; system = ([], pieces) }

pipe-TakesAll : TakesAll pipe 3 (λ w. w.0)
pipe-TakesAll = record { takes = λ b bs w. refl; appends = λ m w. refl }

messages_delivered_example :
    ((for_each (send ⦃sys = pipe⦄) (hello ∷ ok_message ∷ []) sender).0 ≡ ok tt)
    × ((reads ⦃sys = pipe⦄ 3 reader).0 ≡ ok tt)
    × ((reads ⦃sys = pipe⦄ 3 reader).1.socket.queue
        ≡ record { buffer = []; received = hello ∷ ok_message ∷ [] })
unfolding find_delimiter send send_chunk Tcp.send send_loop flatten for_each
messages_delivered_example =
    messages_delivered pipe pipe (λ w. w.0) (hello ∷ ok_message ∷ []) pieces sender reader ([], [])
      pipe-TakesAll (refl, (refl, tt)) (omega arith, (omega arith, tt)) refl refl refl
      (next _ _ _ _ _ tt refl (next _ _ _ _ _ tt refl (next _ _ _ _ _ tt refl (done _))))
