-- ===== src/Transfer/Udp/Network.antt =====
-- The datagram socket over a network that loses, repeats and reorders datagrams
-- (src/transfer/udp/LinuxSocket.cpp): where a receiver stands in a row of messages, whatever reaches
-- it.
use asinc_roulette.Base.{
  ℕ, zero, suc, ◌+◌, ◌*◌, ◌/◌, ◌%◌, ◌≤◌, ◌<◌, ◌≡◌, refl, sym, ap, ◌∙◌, ◌⊎◌, false, List, [], ◌∷◌,
  ◌++◌, none, arith, length, length-append, take, drop, ◌==◌, nat_eq, All,
}
use mathlib.Core.List.{append_assoc, append-nil}
use asinc_roulette.Base.Slices.{take-append-drop, take-eq_of_length}
use asinc_roulette.Transfer.Framing.{Bytes, delimiter, find_delimiter, messages, wire}
use asinc_roulette.Transfer.Udp.{Socket, message_size, fragment, user_byte}
use asinc_roulette.Transfer.Udp.Packages.{take-more}

-- The message at a position as it is cut into packages, nothing behind the last one.
abbrev pub framed_at : ℕ → List Bytes → Bytes
framed_at k [] = []
framed_at zero (m ∷ ms) = m ++ delimiter
framed_at (suc k) (m ∷ ms) = framed_at k ms

abbrev pub count_at : ℕ → List Bytes → ℕ
count_at k ms = length (framed_at k ms) / message_size + 1

-- What a receiver has taken in: the messages before a position and some packages of the next one.
abbrev pub taken : ℕ → ℕ → List Bytes → Bytes
taken k j ms = wire (take k ms) ++ take (j * message_size) (framed_at k ms)

-- The receiver waits for package `j` of message `k`, and has acknowledged the messages before it.
pub record IsAt (ms : List Bytes) (k j : ℕ) (r : Socket) : Type 0 where
  pub identifier : r.expected_id ≡ k
  pub number : r.expected_number ≡ j
  pub numbers : (r.expected_numbers ≡ 0) ⊎ (r.expected_numbers ≡ count_at k ms % 256)
  pub ready : r.receive_buffer ≡ (messages (taken k j ms)).0
  pub pending : r.buffer ≡ (messages (taken k j ms)).1
  pub answers : length r.sent ≡ k
  pub inside : k ≤ length ms
  pub below : j < count_at k ms

-- Messages that the sender takes: short enough, without a delimiter, with different numbers.
pub record AreSendable (ms : List Bytes) : Type 0 where
  pub few : length ms < 256
  pub small : All (λ m. length m + 2 < 256 * message_size) ms
  pub clean : All (λ m. find_delimiter m ≡ none) ms

-- A datagram of the sender: a package of one of the messages, or not a package at all.
pub data IsOf (ms : List Bytes) : Bytes → Type 0 where
  package_at :
      (k i : ℕ)
      → k < length ms
      → i < count_at k ms
      → IsOf ms (fragment k (count_at k ms) (framed_at k ms) i)
  other : (x : ℕ) (rest : Bytes) → (x == user_byte) ≡ false → IsOf ms (x ∷ rest)

pub wire-append : (xs ys : List Bytes) → wire (xs ++ ys) ≡ wire xs ++ wire ys
wire-append [] ys = refl
wire-append (m ∷ xs) ys =
    ap (λ rest. m ++ (delimiter ++ rest)) (wire-append xs ys)
    ∙ sym (append_assoc m (delimiter ++ wire xs) (wire ys))

pub wire-take :
    (k : ℕ) (ms : List Bytes) → wire (take (suc k) ms) ≡ wire (take k ms) ++ framed_at k ms
wire-take zero [] = refl
wire-take (suc k) [] = refl
wire-take zero (m ∷ ms) = refl
wire-take (suc k) (m ∷ ms) =
    ap (λ rest. m ++ (delimiter ++ rest)) (wire-take k ms)
    ∙ sym (append_assoc m (delimiter ++ wire (take k ms)) (framed_at k ms))

pub count_small :
    (k : ℕ) (ms : List Bytes)
    → All (λ m. length m + 2 < 256 * message_size) ms
    → count_at k ms ≤ 256
count_small k [] h = omega arith
count_small zero (m ∷ ms) h = omega (arith, length-append m delimiter, h.0)
count_small (suc k) (m ∷ ms) h = count_small k ms h.1

pub all_taken : (k : ℕ) (ms : List Bytes) → taken k (count_at k ms) ms ≡ wire (take (suc k) ms)
all_taken k ms =
    ap (λ b. wire (take k ms) ++ b)
      (take-eq_of_length (count_at k ms * message_size) (framed_at k ms) (omega arith))
    ∙ sym (wire-take k ms)

pub taken-next : (k : ℕ) (ms : List Bytes) → taken (suc k) 0 ms ≡ wire (take (suc k) ms)
taken-next k ms = append-nil (wire (take (suc k) ms))

pub taken-more :
    (k j : ℕ) (ms : List Bytes)
    → taken k j ms ++ take message_size (drop (j * message_size) (framed_at k ms))
      ≡ taken k (suc j) ms
taken-more k j ms =
    append_assoc (wire (take k ms)) (take (j * message_size) (framed_at k ms)) _
    ∙ ap (λ b. wire (take k ms) ++ b) (take-more j (framed_at k ms))

abbrev pub rest_of : ℕ → ℕ → List Bytes → Bytes
rest_of k j ms = drop (j * message_size) (framed_at k ms) ++ wire (drop (suc k) ms)

pub taken-rest : (k j : ℕ) (ms : List Bytes) → taken k j ms ++ rest_of k j ms ≡ wire ms
taken-rest k j ms =
    let framed = framed_at k ms in
    append_assoc (wire (take k ms)) (take (j * message_size) framed) (rest_of k j ms)
    ∙ ap (λ b. wire (take k ms) ++ b)
        (sym (append_assoc (take (j * message_size) framed) (drop (j * message_size) framed) _)
          ∙ ap (λ b. b ++ wire (drop (suc k) ms)) (take-append-drop (j * message_size) framed))
    ∙ sym (append_assoc (wire (take k ms)) framed (wire (drop (suc k) ms)))
    ∙ ap (λ b. b ++ wire (drop (suc k) ms)) (sym (wire-take k ms))
    ∙ sym (wire-append (take (suc k) ms) (drop (suc k) ms))
    ∙ ap wire (take-append-drop (suc k) ms)
