-- ===== src/Transfer/Udp/Resending.antt =====
-- What a sender keeps and sends again (`buffered_send`, `update(size_t timeout)` of
-- src/transfer/udp/LinuxSocket.cpp).
use asinc_roulette.Base.{
  ℕ, zero, suc, ◌+◌, ◌*◌, ◌%◌, ◌^◌, ◌≤◌, ◌<◌, ◌≡◌, refl, sym, ap, ◌∙◌, Bool, true, false, List, [],
  ◌∷◌, ◌++◌, arith, length, ltb, nat_eq, All,
}
use mathlib.Core.List.{append_assoc, append-nil, flatten}
use asinc_roulette.Failure.{ok}
use asinc_roulette.Transfer.Framing.{Bytes}
use asinc_roulette.Transfer.Udp.{
  Socket, next_char, message_size, resend, update_timeout, retry_limit, disconnect_limit,
}
use asinc_roulette.Transfer.Udp.Packages.{packages_of}
use asinc_roulette.Transfer.Udp.Delivery.{raw_sends-sent, buffered_send-sent}
use asinc_roulette.Transfer.Udp.Outgoing.{outgoing, send_all}

-- The packages that the sender keeps, a list for each message.
abbrev pub batches : ℕ → List Bytes → List (List Bytes)
batches id [] = []
batches id (m ∷ ms) = packages_of id m ∷ batches (next_char id) ms

pub flatten-batches : (id : ℕ) (ms : List Bytes) → flatten (batches id ms) ≡ outgoing id ms
unfolding flatten
flatten-batches id [] = refl
flatten-batches id (m ∷ ms) = ap (λ ds. packages_of id m ++ ds) (flatten-batches (next_char id) ms)

module _ (refused : Bytes → Bool) where
  -- The state after so many calls of `update` in which nothing came.
  abbrev pub waited_for : ℕ → ℕ → Socket → Socket
  waited_for timeout zero s = s
  waited_for timeout (suc n) s = (update_timeout refused timeout (waited_for timeout n s)).1

  module _ (reliable : (d : Bytes) → refused d ≡ false) where
    resend-sent :
        (bs : List (List Bytes)) (s : Socket)
        → resend refused bs s ≡ (ok tt, record s { sent = s.sent ++ flatten bs })
    unfolding resend flatten
    resend-sent [] s = rw (append-nil s.sent) refl
    resend-sent (ds ∷ bs) s =
        rw
          (
            resend,
            raw_sends-sent refused reliable ds s,
            raw_sends-sent refused reliable ds s,
            resend-sent bs (record s { sent = s.sent ++ ds }),
            append_assoc s.sent ds (flatten bs),
          )
          refl

    pub send_all-kept :
        (ms : List Bytes) (s : Socket)
        → s.disconnect_timeout ≡ 0
        → All (λ m. length m + 2 < 256 * message_size) ms
        → ((send_all refused ms s).send_buffer ≡ s.send_buffer ++ batches s.package_id ms)
          × ((send_all refused ms s).disconnect_timeout ≡ 0)
          × ((send_all refused ms s).retry_timeout ≡ s.retry_timeout)
    unfolding send_all
    send_all-kept [] s quiet small = (sym (append-nil s.send_buffer), quiet, refl)
    send_all-kept (m ∷ ms) s quiet small =
        let step = ap (λ p. p.1) (buffered_send-sent refused reliable m small.0 s) in
        let s' : Socket = record s {
          disconnect_timeout = 0;
          sent = s.sent ++ packages_of s.package_id m;
          package_id = next_char s.package_id;
          send_buffer = s.send_buffer ++ packages_of s.package_id m ∷ [];
        } in
        let (kept, quiet', waited) = send_all-kept ms s' refl small.1 in
        (
          ap (λ x. (send_all refused ms x).send_buffer) step
              ∙ kept
              ∙ append_assoc s.send_buffer (packages_of s.package_id m ∷ [])
                  (batches (next_char s.package_id) ms),
          ap (λ x. (send_all refused ms x).disconnect_timeout) step ∙ quiet',
          ap (λ x. (send_all refused ms x).retry_timeout) step ∙ waited,
        )

    -- Up to a second of silence nothing but the two clocks changes.
    update_timeout-quiet :
        (timeout t : ℕ) (s : Socket)
        → s.disconnect_timeout ≡ t
        → s.retry_timeout ≡ t
        → t + timeout ≤ retry_limit
        → update_timeout refused timeout s
          ≡ (ok false, record s { disconnect_timeout = t + timeout; retry_timeout = t + timeout })
    unfolding update_timeout
    update_timeout-quiet timeout t s quiet waited early =
        let d : (s.disconnect_timeout + timeout) % 2 ^ 64 ≡ t + timeout = omega (arith, quiet) in
        let w : (s.retry_timeout + timeout) % 2 ^ 64 ≡ t + timeout = omega (arith, waited) in
        let connected : ltb disconnect_limit (t + timeout) ≡ false = ground arith in
        let again : ltb retry_limit (t + timeout) ≡ false = ground arith in
        rw (update_timeout, d, w, connected, again) refl

    clocks :
        (d r : ℕ) (s : Socket)
        → s.disconnect_timeout ≡ d
        → s.retry_timeout ≡ r
        → s ≡ record s { disconnect_timeout = d; retry_timeout = r }
    clocks d r s quiet waited = rw (← quiet, ← waited) refl

    pub waited_for-quiet :
        (timeout n : ℕ) (s : Socket)
        → s.disconnect_timeout ≡ 0
        → s.retry_timeout ≡ 0
        → n * timeout ≤ retry_limit
        → waited_for timeout n s
          ≡ record s { disconnect_timeout = n * timeout; retry_timeout = n * timeout }
    waited_for-quiet timeout zero s quiet waited early =
        clocks (0 * timeout) (0 * timeout) s (omega (arith, quiet)) (omega (arith, waited))
    waited_for-quiet timeout (suc n) s quiet waited early =
        let total : suc n * timeout ≡ n * timeout + timeout = grind arith in
        let s' : Socket = record s {
          disconnect_timeout = n * timeout;
          retry_timeout = n * timeout;
        } in
        ap (λ x. (update_timeout refused timeout x).1)
          (waited_for-quiet timeout n s quiet waited (omega (arith, total)))
        ∙ ap (λ p. p.1)
            (update_timeout-quiet timeout (n * timeout) s' refl refl (omega (arith, total)))
        ∙ ap (λ (l : ℕ). record s { disconnect_timeout = l; retry_timeout = l }) (sym total)

    -- The first call that takes the silence above a second sends everything again that is not
    -- acknowledged.
    pub update_timeout-resends :
        (timeout n : ℕ) (s : Socket)
        → s.disconnect_timeout ≡ 0
        → s.retry_timeout ≡ 0
        → n * timeout ≤ retry_limit
        → retry_limit < suc n * timeout
        → suc n * timeout ≤ disconnect_limit
        → update_timeout refused timeout (waited_for timeout n s) ≡ (
          ok false,
          record s {
            disconnect_timeout = suc n * timeout;
            retry_timeout = 0;
            sent = s.sent ++ flatten s.send_buffer;
          },
        )
    unfolding update_timeout
    update_timeout-resends timeout n s quiet waited early late limit =
        let total : n * timeout + timeout ≡ suc n * timeout = grind arith in
        let w : (n * timeout + timeout) % 2 ^ 64 ≡ suc n * timeout = omega (arith, total) in
        let connected : ltb disconnect_limit (suc n * timeout) ≡ false = ground arith in
        let again : ltb retry_limit (suc n * timeout) ≡ true = ground arith in
        let sends = resend-sent s.send_buffer (record s {
          disconnect_timeout = (n * timeout + timeout) % 2 ^ 64;
          retry_timeout = (n * timeout + timeout) % 2 ^ 64;
        }) in
        ap (update_timeout refused timeout) (waited_for-quiet timeout n s quiet waited early)
        ∙ (rw (update_timeout, sends, sends, w, connected, again) refl)
