-- ===== src/Transfer/Udp/Packages.antt =====
-- The packages of the datagram socket (src/transfer/udp/LinuxSocket.cpp): what `buffered_send` puts
-- into one and what `update` makes of it.
use asinc_roulette.Base.{
  ℕ, suc, ◌+◌, ◌*◌, ◌/◌, ◌%◌, ◌≤◌, ◌<◌, ◌≡◌, ap, ◌∙◌, ◌⊎◌, inl, inr, true, false, not, ◌&&◌, ◌||◌,
  List, [], ◌∷◌, ◌++◌, arith, length, take, drop, ltb, ◌==◌, nat_eq,
}
use native.Mathlib.Decide.{dec_le}
use Prim.Native.Nat.{min}
use mathlib.Core.List.{append-nil}
use asinc_roulette.Base.Slices.{length-drop, take-take, take-eq_of_length, take-add}
use asinc_roulette.Transfer.Framing.{Bytes, delimiter, messages, extract}
use asinc_roulette.Transfer.Tcp.{substr}
use asinc_roulette.Transfer.Udp.{
  Socket, next_char, message_size, fragment, packages_from, arrive, user_byte, success_byte,
}

-- Where a receiver stands after the bytes of a stream: `number` packages of a message of `numbers`.
abbrev pub at_package : (disconnect retry number numbers : ℕ) → Bytes → Socket → Socket
at_package disconnect retry number numbers stream r = record r {
  disconnect_timeout = disconnect;
  retry_timeout = retry;
  expected_number = number;
  expected_numbers = numbers;
  buffer = (messages stream).1;
  receive_buffer = r.receive_buffer ++ (messages stream).0;
}

-- The receiver after the last package, which it has acknowledged.
abbrev pub completed : Bytes → Socket → Socket
completed stream r = record (at_package 0 0 0 0 stream r) {
  expected_id = next_char r.expected_id;
  sent = r.sent ++ (success_byte ∷ []) ∷ [];
}

-- Of a package that is too long, `recvfrom` keeps the bytes that belong to it.
pub window :
    (l : ℕ) (m : Bytes)
    → take message_size (substr l (min (l + message_size) (length m)) m)
      ≡ take message_size (drop l m)
window l m = elim (dec_le (l + message_size) (length m)) [
  | yes inside ↦ take-take message_size (min (l + message_size) (length m)) (drop l m) (omega arith)
  | no over ↦ ap (take message_size) (
      take-eq_of_length (min (l + message_size) (length m)) (drop l m)
        (omega (arith, length-drop l m)))
]

pub arrive-fragment :
    (id n k : ℕ) (m : Bytes)
    → arrive (fragment id n m k)
      ≡ user_byte ∷ id ∷ k % 256 ∷ n % 256 ∷ take message_size (drop (k * message_size) m)
unfolding arrive fragment
arrive-fragment id n k m =
    ap (λ payload. user_byte ∷ id ∷ k % 256 ∷ n % 256 ∷ payload) (window (k * message_size) m)

pub add_one : (k : ℕ) → k + 1 ≡ suc k
add_one k = omega arith

pub take-more :
    (k : ℕ) (m : Bytes)
    → take (k * message_size) m ++ take message_size (drop (k * message_size) m)
      ≡ take (suc k * message_size) m
take-more k m =
    let e : k * message_size + message_size ≡ suc k * message_size = omega arith in
    take-add (k * message_size) message_size m ∙ ap (λ (l : ℕ). take l m) e

-- A receiver that waits for the first package of the message `id`.
pub record IsWaiting (id : ℕ) (r : Socket) : Type 0 where
  pub same : id ≡ r.expected_id
  pub number : r.expected_number ≡ 0
  pub numbers : r.expected_numbers ≡ 0
  pub nothing : r.buffer ≡ []

pub IsWaiting-at :
    (id : ℕ) (r : Socket)
    → IsWaiting id r
    → at_package r.disconnect_timeout r.retry_timeout 0 0 [] r ≡ r
unfolding messages extract
IsWaiting-at id r h = rw (append-nil r.receive_buffer) (cc (h.number, h.numbers, h.nothing))

abbrev pub packages_of : ℕ → Bytes → List Bytes
packages_of id m =
    let framed = m ++ delimiter in
    let n = length framed / message_size + 1 in packages_from n 0 id n framed

module _ (k n : ℕ) (below : k < n) (few : n ≤ 256) where
  pub not_last : suc k < n → ((k + 1) % 256 == n % 256) ≡ false
  not_last more = ground arith

  pub last : suc k ≡ n → ((k + 1) % 256 == n % 256) ≡ true
  last done = ground arith

  pub expected : (id id' : ℕ) → id ≡ id' → (not (id == id') || not (k % 256 == k)) ≡ false
  expected id id' same = ground arith

pub consistent : (n w : ℕ) → (w ≡ 0) ⊎ (w ≡ n % 256) → (not (w == 0) && not (n % 256 == w)) ≡ false
consistent n w (inl h) = ground arith
consistent n w (inr h) = ground arith

pub fits : (n : ℕ) → n ≤ message_size → ltb 512 (suc (suc (suc (suc n)))) ≡ false
fits n h = ground arith
