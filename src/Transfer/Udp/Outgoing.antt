-- ===== src/Transfer/Udp/Outgoing.antt =====
-- What a sender of messages puts on the network (`buffered_send` of
-- src/transfer/udp/LinuxSocket.cpp), and what the network may give to the receiver.
use asinc_roulette.Base.{
  ℕ, zero, suc, ◌+◌, ◌*◌, ◌/◌, ◌<◌, ◌≡◌, refl, sym, ap, subst, ◌∙◌, Bool, false, List, [], ◌∷◌,
  ◌++◌, arith, length, length-append, ◌==◌, nat_eq, All,
}
use mathlib.Core.List.Memᴰ.{head, tail}
use mathlib.Core.List.{Memᴰ, append_assoc, append-nil}
use asinc_roulette.Transfer.Framing.{Bytes, delimiter}
use asinc_roulette.Transfer.Udp.{
  Socket, fresh, next_char, message_size, packages_from, buffered_send, user_byte,
}
use asinc_roulette.Transfer.Udp.Packages.{packages_of}
use asinc_roulette.Transfer.Udp.Delivery.{buffered_send-sent}
use asinc_roulette.Transfer.Udp.Network.{framed_at, count_at, AreSendable, IsOf, package_at, other}

-- What a network may give to the receiver: datagrams that the sender sent, and others that are no
-- package of a message, as the acknowledgements and the exit of the peer.
pub data IsCarried (ds : List Bytes) : Bytes → Type 0 where
  carried : (d : Bytes) → Memᴰ d ds → IsCarried ds d
  alien : (x : ℕ) (rest : Bytes) → (x == user_byte) ≡ false → IsCarried ds (x ∷ rest)

-- The packages of some messages, the first of which has the number `id`.
abbrev pub outgoing : ℕ → List Bytes → List Bytes
outgoing id [] = []
outgoing id (m ∷ ms) = packages_of id m ++ outgoing (next_char id) ms

All-Memᴰ : (P : Bytes → Type 0) (ds : List Bytes) (d : Bytes) → All P ds → Memᴰ d ds → P d
All-Memᴰ P [] d h m = elim m [ ]
All-Memᴰ P (x ∷ ds) d h (head e) = subst P (sym e) h.0
All-Memᴰ P (x ∷ ds) d h (tail m) = All-Memᴰ P ds d h.1 m

All-append : (P : Bytes → Type 0) (xs ys : List Bytes) → All P xs → All P ys → All P (xs ++ ys)
All-append P [] ys hx hy = hy
All-append P (x ∷ xs) ys hx hy = (hx.0, All-append P xs ys hx.1 hy)

packages-IsOf :
    (c i k : ℕ) (ms : List Bytes)
    → k < length ms
    → i + c ≡ count_at k ms
    → All (IsOf ms) (packages_from c i k (count_at k ms) (framed_at k ms))
unfolding packages_from
packages-IsOf zero i k ms inside total = tt
packages-IsOf (suc c) i k ms inside total =
    (package_at k i inside (omega arith), packages-IsOf c (i + 1) k ms inside (omega arith))

pub framed_behind :
    (xs ys : List Bytes) (m : Bytes) → framed_at (length xs) (xs ++ m ∷ ys) ≡ m ++ delimiter
framed_behind [] ys m = refl
framed_behind (x ∷ xs) ys m = framed_behind xs ys m

outgoing-IsOf :
    (xs ys : List Bytes) → length (xs ++ ys) < 256 → All (IsOf (xs ++ ys)) (outgoing (length xs) ys)
outgoing-IsOf xs [] few = tt
outgoing-IsOf xs (m ∷ ys) few =
    let size = length-append xs (m ∷ ys) in
    let ms = xs ++ m ∷ ys in
    let longer = append_assoc xs (m ∷ []) ys in
    let next : length (xs ++ m ∷ []) ≡ next_char (length xs) =
      omega (arith, length-append xs (m ∷ [])) in
    All-append (IsOf ms) (packages_of (length xs) m) (outgoing (next_char (length xs)) ys)
      (subst
        (λ f. All (IsOf ms) (
          packages_from (length f / message_size + 1) 0 (length xs) (length f / message_size + 1)
            f))
        (framed_behind xs ys m)
        (packages-IsOf (count_at (length xs) ms) 0 (length xs) ms (omega arith) (omega arith)))
      (subst (λ (l : ℕ). All (IsOf ms) (outgoing l ys)) next
        (subst (λ zs. All (IsOf zs) (outgoing (length (xs ++ m ∷ [])) ys)) longer
          (outgoing-IsOf (xs ++ m ∷ []) ys (subst (λ zs. length zs < 256) (sym longer) few))))

module _ (refused : Bytes → Bool) where
  -- The sender, given messages one after the other.
  unfoldable pub send_all : List Bytes → Socket → Socket
  send_all [] s = s
  send_all (m ∷ ms) s = send_all ms (buffered_send refused m s).1

  module _ (reliable : (d : Bytes) → refused d ≡ false) where
    send_all-sent :
        (ms : List Bytes) (s : Socket)
        → All (λ m. length m + 2 < 256 * message_size) ms
        → (send_all ms s).sent ≡ s.sent ++ outgoing s.package_id ms
    unfolding send_all
    send_all-sent [] s small = sym (append-nil s.sent)
    send_all-sent (m ∷ ms) s small =
        let step = ap (λ p. p.1) (buffered_send-sent refused reliable m small.0 s) in
        ap (λ s'. (send_all ms s').sent) step
        ∙ send_all-sent ms _ small.1
        ∙ append_assoc s.sent (packages_of s.package_id m) (outgoing (next_char s.package_id) ms)

    module _ (ms : List Bytes) (sendable : AreSendable ms) where
      pub carried-IsOf : (d : Bytes) → IsCarried (send_all ms fresh).sent d → IsOf ms d
      carried-IsOf d (carried d' m) =
          All-Memᴰ (IsOf ms) (outgoing 0 ms) d (outgoing-IsOf [] ms sendable.few)
            (subst (Memᴰ d) (send_all-sent ms fresh sendable.small) m)
      carried-IsOf d (alien x rest not_user) = other x rest not_user
