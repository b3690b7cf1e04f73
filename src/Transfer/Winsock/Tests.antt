-- ===== src/Transfer/Winsock/Tests.antt =====
-- The theorem about the socket for Windows at a concrete message.
use asinc_roulette.Base.{
  arith, ℕ, ◌≡◌, refl, List, [], ◌∷◌, ◌++◌, Option, none, some, length, nat_eq,
}
use asinc_roulette.Base.Int.{pos}
use asinc_roulette.Failure.{ok, err, socket_error}
use asinc_roulette.Transfer.Framing.{Bytes, delimiter, find_delimiter}
use asinc_roulette.Transfer.Winsock.{
  Winsock, WinSocket, receive, strays, block, blocks, blocks_from,
}
use asinc_roulette.Transfer.Winsock.Roundtrip.{done, next, blocks_roundtrip}

abbrev hello : Bytes
hello = 104 ∷ 101 ∷ 108 ∷ 108 ∷ 111 ∷ []

-- A system that hands over given blocks.
abbrev come : List Bytes → Option Bytes × List Bytes
come [] = (none, [])
come (b ∷ bs) = (some b, bs)

instance abbrev pipe : Winsock (List Bytes)
pipe = record {
  startup = λ w. (pos 0, w);
  cleanup = λ w. w;
  socket = λ domain type protocol w. (some 3, w);
  connect = λ d a w. (pos 0, w);
  closesocket = λ d w. (pos 0, w);
  recv = λ d size w. come w;
  send = λ d m w. (pos (length m), w ++ m ∷ []);
  select = λ d timeout w. (pos 1, w);
  getaddrinfo = λ domain type protocol host port w. (err socket_error, w);
}

-- Behind every string stands the same byte.
abbrev sevens : ℕ → ℕ → ℕ
sevens left n = 7

abbrev reader : WinSocket (List Bytes)
reader = record { descriptor = 3; address_info = none; system = blocks sevens hello }

blocks_roundtrip_example :
    receive (length (hello ++ delimiter)) reader ≡ some (ok hello, record reader { system = [] })
unfolding blocks blocks_from block strays find_delimiter
blocks_roundtrip_example =
    blocks_roundtrip sevens hello refl refl (omega arith) reader [] (next _ _ _ _ _ refl (done _))
