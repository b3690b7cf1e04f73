-- ===== src/Transfer/Udp/Retransmission.antt =====
-- Messages that are sent again (`update(size_t timeout)` of src/transfer/udp/LinuxSocket.cpp).
use asinc_roulette.Base.{
  ℕ, zero, suc, ◌+◌, ◌*◌, ◌/◌, ◌%◌, ◌≤◌, ◌<◌, ◌≡◌, refl, sym, ap, subst, ◌∙◌, Bool, true, false,
  not, ◌||◌, List, [], ◌∷◌, ◌++◌, arith, length, length-append, take, ◌==◌, nat_eq, All,
}
use native.Mathlib.Decide.{dec_le}
use mathlib.Core.List.{append_assoc, append-nil, flatten}
use asinc_roulette.Failure.{ok}
use asinc_roulette.Transfer.Framing.{Bytes, delimiter, messages, messages-wire, wire}
use asinc_roulette.Transfer.Udp.{
  Socket, fresh, next_char, message_size, fragment, packages_from, update_timeout, retry_limit,
  disconnect_limit,
}
use asinc_roulette.Transfer.Udp.Packages.{packages_of}
use asinc_roulette.Transfer.Udp.Delivery.{deliver}
use asinc_roulette.Transfer.Udp.Network.{framed_at, count_at, taken, IsAt, AreSendable}
use asinc_roulette.Transfer.Udp.Arrivals.{arrival, arrival-stale, silent-IsAt}
use asinc_roulette.Transfer.Udp.Outgoing.{IsCarried, outgoing, send_all, framed_behind}
use asinc_roulette.Transfer.Udp.Standing.{deliver-IsAt, fresh-IsAt}
use asinc_roulette.Transfer.Udp.Unreliable.{resent-IsAt}
use asinc_roulette.Transfer.Udp.Resending.{
  flatten-batches, send_all-kept, waited_for, waited_for-quiet, update_timeout-resends,
}

framed_end : (ms : List Bytes) → framed_at (length ms) ms ≡ []
framed_end [] = refl
framed_end (m ∷ ms) = framed_end ms

take_all : (ms : List Bytes) → take (length ms) ms ≡ ms
take_all [] = refl
take_all (m ∷ ms) = ap (◌∷◌ m) (take_all ms)

take_none : (n : ℕ) → take {A = ℕ} n [] ≡ []
take_none zero = refl
take_none (suc n) = refl

module _ (refused : Bytes → Bool) where
  deliver-append :
      (ds ds' : List Bytes) (r : Socket)
      → deliver refused (ds ++ ds') r ≡ deliver refused ds' (deliver refused ds r)
  unfolding deliver
  deliver-append [] ds' r = refl
  deliver-append (d ∷ ds) ds' r = deliver-append ds ds' (arrival refused d r)

  -- Packages of a message that was completed before.
  passed-IsAt :
      (ms : List Bytes) (c i id n k j : ℕ) (m : Bytes) (r : Socket)
      → id < k
      → IsAt ms k j r
      → IsAt ms k j (deliver refused (packages_from c i id n m) r)
  unfolding deliver packages_from
  passed-IsAt ms zero i id n k j m r before h = h
  passed-IsAt ms (suc c) i id n k j m r before h =
      let stale : (not (id == r.expected_id) || not (i % 256 == r.expected_number)) ≡ true =
        ground (arith, h.identifier, nat_eq.beq_iff id r.expected_id) in
      passed-IsAt ms c (i + 1) id n k j m (arrival refused (fragment id n m i) r) before (
        subst (IsAt ms k j) (sym (arrival-stale refused id n i m r stale)) (silent-IsAt ms k j r h))

  module _ (reliable : (d : Bytes) → refused d ≡ false) where
    module _ (ms : List Bytes) (sendable : AreSendable ms) where
      -- A receiver that has not passed a message has passed it after its packages.
      message-IsAt :
          (id k j : ℕ) (m : Bytes) (r : Socket)
          → framed_at id ms ≡ m ++ delimiter
          → id < length ms
          → id ≤ k
          → IsAt ms k j r
          → (k' : ℕ) × (j' : ℕ) × (suc id ≤ k')
            × IsAt ms k' j' (deliver refused (packages_of id m) r)
      message-IsAt id k j m r framed inside before h =
          let n = length (m ++ delimiter) / message_size + 1 in
          elim (dec_le (suc id) k) [
            | yes passed ↦ (k, j, passed, passed-IsAt ms n 0 id n k j (m ++ delimiter) r passed h)
            | no here ↦
                let same : k ≡ id = omega arith in
                (
                  suc id,
                  0,
                  omega arith,
                  subst
                      (λ f. IsAt ms (suc id) 0 (
                        deliver refused
                          (packages_from (length f / message_size + 1) 0 id
                            (length f / message_size + 1) f)
                          r))
                      framed
                      (resent-IsAt refused reliable ms sendable (count_at id ms) 0 id j r inside
                        (omega arith) (omega arith) (subst (λ (l : ℕ). IsAt ms l j r) same h)),
                )
          ]

      -- All messages in a row, from one that the receiver has not passed.
      deliver-outgoing :
          (xs ys : List Bytes) (k j : ℕ) (r : Socket)
          → ms ≡ xs ++ ys
          → length xs ≤ k
          → IsAt ms k j r
          → (k' : ℕ) × (j' : ℕ) × (length ms ≤ k')
            × IsAt ms k' j' (deliver refused (outgoing (length xs) ys) r)
      unfolding deliver
      deliver-outgoing xs [] k j r e before h =
          (k, j, omega (arith, ap length e, length-append xs []), h)
      deliver-outgoing xs (m ∷ ys) k j r e before h =
          let id = length xs in
          let total = ap length e ∙ length-append xs (m ∷ ys) in
          let next : length (xs ++ m ∷ []) ≡ next_char id =
            omega (arith, length-append xs (m ∷ []), total, sendable.few) in
          let framed = ap (framed_at id) e ∙ framed_behind xs ys m in
          let (k₁, j₁, after, h₁) =
            message-IsAt id k j m r framed (omega (arith, total)) before h in
          let (k', j', ended, h') =
            deliver-outgoing (xs ++ m ∷ []) ys k₁ j₁ (deliver refused (packages_of id m) r)
              (e ∙ sym (append_assoc xs (m ∷ []) ys)) (omega (arith, length-append xs (m ∷ [])))
              h₁ in
          (
            k',
            j',
            ended,
            subst (IsAt ms k' j')
                (sym (deliver-append (packages_of id m) (outgoing (next_char id) ys) r))
                (subst
                  (λ (l : ℕ).
                    IsAt ms k' j'
                      (deliver refused (outgoing l ys) (deliver refused (packages_of id m) r)))
                  next h'),
          )

      -- A receiver that has passed all messages has them all.
      IsAt-all :
          (k j : ℕ) (r : Socket)
          → length ms ≤ k
          → IsAt ms k j r
          → (r.receive_buffer ≡ ms) × (length r.sent ≡ length ms)
      IsAt-all k j r passed h =
          let same : k ≡ length ms = omega (arith, h.inside) in
          let whole : taken (length ms) j ms ≡ wire ms =
            ap (λ b. wire (take (length ms) ms) ++ take (j * message_size) b) (framed_end ms)
            ∙ ap (λ b. wire (take (length ms) ms) ++ b) (take_none (j * message_size))
            ∙ append-nil (wire (take (length ms) ms))
            ∙ ap wire (take_all ms) in
          (
            h.ready
                ∙ ap (λ (l : ℕ). (messages (taken l j ms)).0) same
                ∙ ap (λ b. (messages b).0) whole
                ∙ ap (λ p. p.0) (messages-wire ms sendable.clean),
            h.answers ∙ same,
          )

      -- If sending reports no failure, then fewer than 256 messages of at most 130045 bytes without
      -- a delimiter, of which the network has lost, repeated or reordered packages at will, or
      -- mixed in what is no package, are sent again by the first call of update(timeout) that takes
      -- the sender's waiting above a second, the second one with the timeout of the program, if no
      -- acknowledgement came meanwhile and the waiting is at most a minute, while the calls before
      -- it send nothing; and a receiver that then gets what
      -- is sent again, all and in its order, has exactly these messages, each once, and has
      -- acknowledged each once.
      pub retransmission_completes :
          (ds : List Bytes) (timeout n : ℕ)
          → All (IsCarried (send_all refused ms fresh).sent) ds
          → n * timeout ≤ retry_limit
          → retry_limit < suc n * timeout
          → suc n * timeout ≤ disconnect_limit
          → let s = send_all refused ms fresh in
            let again = flatten s.send_buffer in
            let r = deliver refused again (deliver refused ds fresh) in
            (update_timeout refused timeout (waited_for refused timeout n s) ≡ (
              ok false,
              record s {
                disconnect_timeout = suc n * timeout;
                retry_timeout = 0;
                sent = s.sent ++ again;
              },
            ))
            × ((waited_for refused timeout n s).sent ≡ s.sent)
            × (r.receive_buffer ≡ ms)
            × (length r.sent ≡ length ms)
      retransmission_completes ds timeout n hs early late limit =
          let s = send_all refused ms fresh in
          let (kept, quiet, waited) = send_all-kept refused reliable ms fresh refl sendable.small in
          let again : flatten s.send_buffer ≡ outgoing 0 ms =
            ap flatten kept ∙ flatten-batches 0 ms in
          let (k, j, h) =
            deliver-IsAt refused reliable ms sendable ds 0 0 fresh hs
              (fresh-IsAt refused reliable ms sendable) in
          let (k', j', passed, h') =
            deliver-outgoing [] ms k j (deliver refused ds fresh) refl (omega arith) h in
          let (all, answered) =
            IsAt-all k' j' (deliver refused (flatten s.send_buffer) (deliver refused ds fresh))
              passed
              (subst (λ bs. IsAt ms k' j' (deliver refused bs (deliver refused ds fresh)))
                (sym again) h') in
          (
            update_timeout-resends refused reliable timeout n s quiet waited early late limit,
            ap (λ x. x.sent) (waited_for-quiet refused reliable timeout n s quiet waited early),
            all,
            answered,
          )
