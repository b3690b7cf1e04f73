-- ===== src/Transfer/Udp/Delivery.antt =====
-- A message of the datagram socket on its way (src/transfer/udp/LinuxSocket.cpp): what
-- `buffered_send` cuts it into and what `update` makes of the packages.
use asinc_roulette.Base.{
  ℕ, zero, suc, ◌+◌, ◌*◌, ◌/◌, ◌%◌, ◌≤◌, ◌<◌, ◌≡◌, refl, sym, ap, ◌∙◌, ◌⊎◌, inl, inr, Bool, false,
  List, [], ◌∷◌, ◌++◌, none, arith, length, length-append, take, drop, leb, ◌==◌, nat_eq,
}
use mathlib.Core.List.{append_assoc, append-nil}
use asinc_roulette.Base.Slices.{take-eq_of_length, length-take}
use asinc_roulette.Failure.{ok}
use asinc_roulette.Transfer.Framing.{
  Bytes, delimiter, find_delimiter, messages, messages-append, messages-framed, extract,
}
use asinc_roulette.Transfer.Udp.{
  Socket, next_char, message_size, fragment, packages_from, arrive, raw_send, raw_sends,
  buffered_send, max_fragmentation_power, take_in, accept_package, user_package, received, update,
  user_byte, success_byte,
}
use asinc_roulette.Transfer.Udp.Packages.{
  IsWaiting, IsWaiting-at, add_one, arrive-fragment, at_package, completed, consistent, expected,
  fits, last, not_last, packages_of, take-more,
}

module _ (refused : Bytes → Bool) where
  -- The receiver, given datagrams one after the other.
  unfoldable pub deliver : List Bytes → Socket → Socket
  deliver [] r = r
  deliver (d ∷ ds) r = deliver ds (update refused (arrive d) r).1

  module _ (reliable : (d : Bytes) → refused d ≡ false) where
    raw_send-sent :
        (d : Bytes) (s : Socket)
        → raw_send refused d s ≡ (ok tt, record s { sent = s.sent ++ d ∷ [] })
    unfolding raw_send
    raw_send-sent d s = rw (reliable d) refl

    pub raw_sends-sent :
        (ds : List Bytes) (s : Socket)
        → raw_sends refused ds s ≡ (ok tt, record s { sent = s.sent ++ ds })
    unfolding raw_sends raw_send
    raw_sends-sent [] s = rw (append-nil s.sent) refl
    raw_sends-sent (d ∷ ds) s =
        rw
          (
            raw_sends,
            reliable d,
            raw_send-sent d s,
            raw_sends-sent ds (record s { sent = s.sent ++ d ∷ [] }),
            append_assoc s.sent (d ∷ []) ds,
          )
          refl

  module _ (reliable : (d : Bytes) → refused d ≡ false) (a b k n w id : ℕ) (payload stream : Bytes)
      (r : Socket) (below : k < n) (few : n ≤ 256) (same : id ≡ r.expected_id)
      (known : (w ≡ 0) ⊎ (w ≡ n % 256)) (short : length payload ≤ message_size) where
    pub update-next :
        suc k < n
        → update refused
            (user_byte ∷ id ∷ k % 256 ∷ n % 256 ∷ payload)
            (at_package a b k w stream r)
          ≡ (ok false, at_package 0 0 (suc k) (n % 256) (stream ++ payload) r)
    unfolding update received user_package accept_package take_in
    update-next more =
        let counted : (k + 1) % 256 ≡ suc k = omega arith in
        rw
          (
            fits (length payload) short,
            expected k n below few id r.expected_id same,
            consistent n w known,
            not_last k n below few more,
            counted,
            messages-append stream payload,
            append_assoc r.receive_buffer (messages stream).0
                (messages ((messages stream).1 ++ payload)).0,
          )
          refl

    pub update-last :
        suc k ≡ n
        → update refused
            (user_byte ∷ id ∷ k % 256 ∷ n % 256 ∷ payload)
            (at_package a b k w stream r)
          ≡ (ok false, completed (stream ++ payload) r)
    unfolding update received user_package accept_package take_in
    update-last done =
        rw
          (
            fits (length payload) short,
            expected k n below few id r.expected_id same,
            consistent n w known,
            last k n below few done,
            raw_send-sent reliable (success_byte ∷ []),
            raw_send-sent reliable (success_byte ∷ []),
            messages-append stream payload,
            append_assoc r.receive_buffer (messages stream).0
                (messages ((messages stream).1 ++ payload)).0,
          )
          refl

  module _ (reliable : (d : Bytes) → refused d ≡ false) (n id : ℕ) (m : Bytes) (r : Socket)
      (few : n ≤ 256) (same : id ≡ r.expected_id) where
    deliver-packages :
        (j k w a b : ℕ)
        → k + suc j ≡ n
        → (w ≡ 0) ⊎ (w ≡ n % 256)
        → deliver
            (packages_from (suc j) k id n m)
            (at_package a b k w (take (k * message_size) m) r)
          ≡ completed (take (n * message_size) m) r
    unfolding deliver packages_from
    deliver-packages zero k w a b total known =
        let done : suc k ≡ n = omega arith in
        let step =
          update-last reliable a b k n w id (take message_size (drop (k * message_size) m))
            (take (k * message_size) m) r (omega arith) few same known (length-take message_size _)
            done in
        ap (λ d. (update refused d (at_package a b k w (take (k * message_size) m) r)).1)
          (arrive-fragment id n k m)
        ∙ ap (λ p. p.1) step
        ∙ ap (λ stream. completed stream r)
            (take-more k m ∙ ap (λ (l : ℕ). take (l * message_size) m) done)
    deliver-packages (suc j) k w a b total known =
        let step =
          update-next reliable a b k n w id (take message_size (drop (k * message_size) m))
            (take (k * message_size) m) r (omega arith) few same known (length-take message_size _)
            (omega arith) in
        ap
          (λ d.
            deliver (packages_from (suc j) (k + 1) id n m)
              (update refused d (at_package a b k w (take (k * message_size) m) r)).1)
          (arrive-fragment id n k m)
        ∙ ap (λ p. deliver (packages_from (suc j) (k + 1) id n m) p.1) step
        ∙ ap
            (λ stream.
              deliver (packages_from (suc j) (k + 1) id n m)
                (at_package 0 0 (suc k) (n % 256) stream r))
            (take-more k m)
        ∙ rw (add_one k) (deliver-packages j (suc k) (n % 256) 0 0 (omega arith) (inr refl))

  module _ (reliable : (d : Bytes) → refused d ≡ false) (m : Bytes)
      (small : length m + 2 < 256 * message_size) where
    pub buffered_send-sent :
        (s : Socket)
        → buffered_send refused m s ≡ (
          ok tt,
          record s {
            disconnect_timeout = 0;
            sent = s.sent ++ packages_of s.package_id m;
            package_id = next_char s.package_id;
            send_buffer = s.send_buffer ++ packages_of s.package_id m ∷ [];
          },
        )
    unfolding buffered_send
    buffered_send-sent s =
        let bounded : leb (max_fragmentation_power * message_size) (length (m ++ delimiter))
            ≡ false =
          ground (arith, length-append m delimiter) in
        let sends =
          raw_sends-sent reliable (packages_of s.package_id m)
            (record s { disconnect_timeout = 0 }) in
        rw (bounded, sends, sends) refl

    deliver-message :
        (id : ℕ) (r : Socket)
        → IsWaiting id r
        → find_delimiter m ≡ none
        → deliver (packages_of id m) r ≡ record r {
          disconnect_timeout = 0;
          retry_timeout = 0;
          expected_id = next_char r.expected_id;
          receive_buffer = r.receive_buffer ++ m ∷ [];
          sent = r.sent ++ (success_byte ∷ []) ∷ [];
        }
    unfolding messages extract
    deliver-message id r waiting clean =
        let framed = m ++ delimiter in
        let count = length framed / message_size in
        let size = length-append m delimiter in
        let all_taken : take ((count + 1) * message_size) framed ≡ framed =
          take-eq_of_length ((count + 1) * message_size) framed (omega arith) in
        ap (λ (c : ℕ). deliver (packages_from c 0 id (count + 1) framed) r) (add_one count)
        ∙ ap (deliver (packages_from (suc count) 0 id (count + 1) framed))
            (sym (IsWaiting-at id r waiting))
        ∙ deliver-packages reliable (count + 1) id framed r (omega arith) waiting.same count 0 0
            r.disconnect_timeout r.retry_timeout (omega arith) (inl refl)
        ∙ ap (λ stream. completed stream r) all_taken
        ∙ rw (messages-framed m [] clean) (cc (waiting.number, waiting.numbers, waiting.nothing))

    -- If the network refuses no datagram and keeps their order, then a receiver that waits for the
    -- sender's next message gets a message of at most 130045 bytes without a delimiter whole, and
    -- acknowledges it once; the sender keeps the packages to send them again.
    pub datagram_roundtrip :
        (s r : Socket)
        → IsWaiting s.package_id r
        → find_delimiter m ≡ none
        → (buffered_send refused m s ≡ (
          ok tt,
          record s {
            disconnect_timeout = 0;
            sent = s.sent ++ packages_of s.package_id m;
            package_id = next_char s.package_id;
            send_buffer = s.send_buffer ++ packages_of s.package_id m ∷ [];
          },
        ))
          × (deliver (packages_of s.package_id m) r ≡ record r {
            disconnect_timeout = 0;
            retry_timeout = 0;
            expected_id = next_char r.expected_id;
            receive_buffer = r.receive_buffer ++ m ∷ [];
            sent = r.sent ++ (success_byte ∷ []) ∷ [];
          })
    datagram_roundtrip s r waiting clean =
        (buffered_send-sent s, deliver-message s.package_id r waiting clean)

  update-stale :
      (id k n : ℕ) (payload : Bytes) (r : Socket)
      → length payload ≤ message_size
      → (id == r.expected_id) ≡ false
      → update refused (user_byte ∷ id ∷ k ∷ n ∷ payload) r
        ≡ (ok false, record r { disconnect_timeout = 0 })
  unfolding update received user_package
  update-stale id k n payload r short stale = rw (fits (length payload) short, stale) refl

  first-stale :
      (k n id : ℕ) (m : Bytes) (r : Socket)
      → (id == r.expected_id) ≡ false
      → (update refused (arrive (fragment id n m k)) r).1 ≡ record r { disconnect_timeout = 0 }
  first-stale k n id m r stale =
      ap (λ d. (update refused d r).1) (arrive-fragment id n k m)
      ∙ ap (λ p. p.1)
          (update-stale id (k % 256) (n % 256) (take message_size (drop (k * message_size) m)) r
            (length-take message_size _) stale)

  deliver-stale :
      (j k n id : ℕ) (m : Bytes) (r : Socket)
      → (id == r.expected_id) ≡ false
      → deliver (packages_from (suc j) k id n m) r ≡ record r { disconnect_timeout = 0 }
  unfolding deliver packages_from
  deliver-stale zero k n id m r stale = first-stale k n id m r stale
  deliver-stale (suc j) k n id m r stale =
      ap (deliver (packages_from (suc j) (k + 1) id n m)) (first-stale k n id m r stale)
      ∙ deliver-stale j (k + 1) n id m (record r { disconnect_timeout = 0 }) stale

  -- Packages of a message that the receiver does not expect, as when they are sent again after it
  -- was completed, are dropped, so that no message comes twice; they are not acknowledged either.
  resent_ignored :
      (id : ℕ) (m : Bytes) (r : Socket)
      → (id == r.expected_id) ≡ false
      → deliver (packages_of id m) r ≡ record r { disconnect_timeout = 0 }
  resent_ignored id m r stale =
      let n = length (m ++ delimiter) / message_size in
      ap (λ (c : ℕ). deliver (packages_from c 0 id (n + 1) (m ++ delimiter)) r) (add_one n)
      ∙ deliver-stale n 0 (n + 1) id (m ++ delimiter) r stale
