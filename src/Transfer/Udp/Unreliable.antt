-- ===== src/Transfer/Udp/Unreliable.antt =====
-- Two datagram sockets and a network between them that may lose, repeat and reorder what they send
-- (src/transfer/udp/LinuxSocket.cpp).
use asinc_roulette.Base.{
  ℕ, zero, suc, ◌+◌, ◌%◌, ◌≤◌, ◌<◌, ◌≡◌, sym, subst, Bool, true, false, not, ◌||◌, List, arith,
  length, take, ◌==◌, nat_eq, All,
}
use native.Mathlib.Decide.{dec_le}
use asinc_roulette.Transfer.Framing.{Bytes}
use asinc_roulette.Transfer.Udp.{Socket, fresh, fragment, packages_from}
use asinc_roulette.Transfer.Udp.Delivery.{deliver}
use asinc_roulette.Transfer.Udp.Network.{framed_at, count_at, IsAt, AreSendable, count_small}
use asinc_roulette.Transfer.Udp.Outgoing.{IsCarried, send_all}
use asinc_roulette.Transfer.Udp.Arrivals.{arrival, arrival-stale, silent-IsAt, next-IsAt, last-IsAt}
use asinc_roulette.Transfer.Udp.Standing.{
  IsPrefix, IsAt-prefix, IsAt-answered, deliver-IsAt, fresh-IsAt,
}

module _ (refused : Bytes → Bool) where
  module _ (reliable : (d : Bytes) → refused d ≡ false) where
    module _ (ms : List Bytes) (sendable : AreSendable ms) where
      -- Packages that were received before are dropped, and the others complete the message.
      pub resent-IsAt :
          (c i k j : ℕ) (r : Socket)
          → k < length ms
          → i + c ≡ count_at k ms
          → i ≤ j
          → IsAt ms k j r
          → IsAt ms
              (suc k)
              0
              (deliver refused (packages_from c i k (count_at k ms) (framed_at k ms)) r)
      unfolding deliver packages_from
      resent-IsAt zero i k j r inside total le h = absurd (omega (arith, h.below))
      resent-IsAt (suc c) i k j r inside total le h =
          let few = count_small k ms sendable.small in
          let n = count_at k ms in
          let m = framed_at k ms in
          let d = fragment k n m i in
          let r' = arrival refused d r in
          let rest = resent-IsAt c (i + 1) k in
          elim (dec_le (suc i) j)
            as (λ _. IsAt ms (suc k) 0 (deliver refused (packages_from c (i + 1) k n m) r')) [
              | yes behind ↦
                  let stale : (not (k == r.expected_id) || not (i % 256 == r.expected_number))
                      ≡ true =
                    ground (arith, h.number, h.below, nat_eq.beq_iff i r.expected_number) in
                  rest j r' inside (omega arith) (omega arith) (
                    subst (IsAt ms k j) (sym (arrival-stale refused k n i m r stale))
                      (silent-IsAt ms k j r h))
              | no reached ↦
                  let same : j ≡ i = omega arith in
                  let here = subst (λ (l : ℕ). IsAt ms k l r) same h in
                  elim (dec_le (suc (suc i)) n)
                    as (λ _.
                      IsAt ms (suc k) 0 (deliver refused (packages_from c (i + 1) k n m) r')) [
                        | yes more ↦
                            rest (suc i) r' inside (omega arith) (omega arith)
                              (next-IsAt refused reliable ms k i r sendable inside here more)
                        | no done ↦
                            let last : 0 ≡ c = omega (arith, here.below) in
                            subst
                              (λ (l : ℕ).
                                IsAt ms (suc k) 0
                                  (deliver refused (packages_from l (i + 1) k n m) r'))
                              last
                              (last-IsAt refused reliable ms k i r sendable inside here
                                (omega (arith, here.below)))
                      ]
            ]

      -- If sending reports no failure, then the receiver of fewer than 256 messages of at most 130045
      -- bytes without a delimiter has at any moment a beginning of the row of messages, whatever
      -- datagrams the network loses, repeats, reorders or mixes in, as long as none of these others is
      -- a package; and it has each message that it has acknowledged.
      pub unreliable-prefix :
          (ds : List Bytes)
          → All (IsCarried (send_all refused ms fresh).sent) ds
          → IsPrefix (deliver refused ds fresh).receive_buffer ms
            × IsPrefix
                (take (length (deliver refused ds fresh).sent) ms)
                (deliver refused ds fresh).receive_buffer
      unreliable-prefix ds hs =
          let (k, j, h) =
            deliver-IsAt refused reliable ms sendable ds 0 0 fresh hs
              (fresh-IsAt refused reliable ms sendable) in
          (
            IsAt-prefix ms sendable k j (deliver refused ds fresh) h,
            IsAt-answered ms sendable k j (deliver refused ds fresh) h,
          )
