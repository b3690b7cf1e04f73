-- ===== src/Transfer/Udp/Arrivals.antt =====
-- What one datagram does to a receiver (`update` of src/transfer/udp/LinuxSocket.cpp), wherever it
-- stands in a row of messages.
use asinc_roulette.Base.{
  ℕ, suc, ◌*◌, ◌%◌, ◌≤◌, ◌<◌, ◌≡◌, refl, sym, ap, ◌∙◌, inl, inr, Bool, true, false, not, ◌||◌, List,
  [], ◌∷◌, arith, length, length-append, take, drop, ◌==◌, nat_eq, subst, ltb, if◌then◌else◌,
}
use asinc_roulette.Base.Slices.{length-take}
use asinc_roulette.Failure.{Result}
use asinc_roulette.Transfer.Framing.{Bytes}
use asinc_roulette.Transfer.Udp.{
  Socket, message_size, fragment, arrive, acknowledged, user_package, received, update, user_byte,
  success_byte, exit_byte,
}
use asinc_roulette.Transfer.Udp.Packages.{arrive-fragment, at_package, completed, fits}
use asinc_roulette.Transfer.Udp.Delivery.{update-next, update-last}
use asinc_roulette.Transfer.Udp.Network.{
  framed_at, count_at, taken, IsAt, AreSendable, count_small, all_taken, taken-next, taken-more,
}

-- The receiver without the messages that it has not given to the server yet.
abbrev emptied : Socket → Socket
emptied r = record r { receive_buffer = [] }

IsAt-at :
    (ms : List Bytes) (k j : ℕ) (r : Socket)
    → IsAt ms k j r
    → at_package r.disconnect_timeout r.retry_timeout j r.expected_numbers
        (taken k j ms)
        (emptied r)
      ≡ r
IsAt-at ms k j r h = cc (h.number, h.ready, h.pending)

-- What `arrive` leaves of package `j` of message `k`.
abbrev datagram : List Bytes → ℕ → ℕ → Bytes
datagram ms k j =
    user_byte
    ∷ k
    ∷ j % 256
    ∷ count_at k ms % 256
    ∷ take message_size (drop (j * message_size) (framed_at k ms))

either_result :
    (P : Socket → Type 0) (c : Bool) (x y : Result Bool × Socket)
    → P x.1
    → P y.1
    → P (if c then x else y).1
either_result P true x y a b = a
either_result P false x y a b = b

pub silent-IsAt :
    (ms : List Bytes) (k j : ℕ) (r : Socket)
    → IsAt ms k j r
    → IsAt ms k j (record r { disconnect_timeout = 0 })
silent-IsAt ms k j r h = record {
  identifier = h.identifier;
  number = h.number;
  numbers = h.numbers;
  ready = h.ready;
  pending = h.pending;
  answers = h.answers;
  inside = h.inside;
  below = h.below;
}

acknowledged-IsAt :
    (ms : List Bytes) (k j : ℕ) (r : Socket) → IsAt ms k j r → IsAt ms k j (acknowledged r)
unfolding acknowledged
acknowledged-IsAt ms k j r h =
    elim (r.send_buffer)
      as (λ l.
        IsAt ms k j (elim l [
          | [] ↦ r
          | oldest ∷ rest ↦ record r { send_buffer = rest; retry_timeout = 0 }
        ])) [
          | [] ↦ h
          | oldest ∷ rest ↦ record {
            identifier = h.identifier;
            number = h.number;
            numbers = h.numbers;
            ready = h.ready;
            pending = h.pending;
            answers = h.answers;
            inside = h.inside;
            below = h.below;
          }
        ]

module _ (refused : Bytes → Bool) where
  abbrev pub arrival : Bytes → Socket → Socket
  arrival d r = (update refused (arrive d) r).1

  pub arrival-stale :
      (id n i : ℕ) (m : Bytes) (r : Socket)
      → (not (id == r.expected_id) || not (i % 256 == r.expected_number)) ≡ true
      → arrival (fragment id n m i) r ≡ record r { disconnect_timeout = 0 }
  unfolding update received user_package
  arrival-stale id n i m r stale =
      ap (λ d. (update refused d r).1) (arrive-fragment id n i m)
      ∙ rw
          (
            fits (length (take message_size (drop (i * message_size) m)))
                (length-take message_size _),
            stale,
          )
          refl

  -- Neither an exit, nor an acknowledgement, nor garbage moves the receiver.
  pub other-IsAt :
      (ms : List Bytes) (k j x : ℕ) (rest : Bytes) (r : Socket)
      → (x == user_byte) ≡ false
      → IsAt ms k j r
      → IsAt ms k j (arrival (x ∷ rest) r)
  unfolding update received arrive
  other-IsAt ms k j x rest r not_user h =
      let kept = silent-IsAt ms k j r h in
      let known : not (x == user_byte) ≡ true = ground arith in
      rw (arrival, update, received, known)
        (either_result (IsAt ms k j) (ltb 512 (length (x ∷ take 511 rest))) _ _ kept (
          either_result (IsAt ms k j) (x == exit_byte) _ _ kept (
            either_result (IsAt ms k j) (x == success_byte) _ _
              (acknowledged-IsAt ms k j (record r { disconnect_timeout = 0 }) kept) kept)))

  module _ (reliable : (d : Bytes) → refused d ≡ false) (ms : List Bytes) (k j : ℕ) (r : Socket)
      (sendable : AreSendable ms) (inside : k < length ms) (h : IsAt ms k j r) where
    few : count_at k ms ≤ 256
    few = count_small k ms sendable.small

    arrival-next :
        suc j < count_at k ms
        → arrival (fragment k (count_at k ms) (framed_at k ms) j) r
          ≡ at_package 0 0 (suc j) (count_at k ms % 256) (taken k (suc j) ms) (emptied r)
    arrival-next more =
        ap (λ d. (update refused d r).1) (arrive-fragment k (count_at k ms) j (framed_at k ms))
        ∙ ap (λ r'. (update refused (datagram ms k j) r').1) (sym (IsAt-at ms k j r h))
        ∙ ap (λ p. p.1)
            (update-next refused reliable r.disconnect_timeout r.retry_timeout j (count_at k ms)
              r.expected_numbers k (take message_size (drop (j * message_size) (framed_at k ms)))
              (taken k j ms) (emptied r) h.below few (sym h.identifier) h.numbers
              (length-take message_size _) more)
        ∙ ap (λ b. at_package 0 0 (suc j) (count_at k ms % 256) b (emptied r)) (taken-more k j ms)

    arrival-last :
        suc j ≡ count_at k ms
        → arrival (fragment k (count_at k ms) (framed_at k ms) j) r
          ≡ completed (taken (suc k) 0 ms) (emptied r)
    arrival-last done =
        ap (λ d. (update refused d r).1) (arrive-fragment k (count_at k ms) j (framed_at k ms))
        ∙ ap (λ r'. (update refused (datagram ms k j) r').1) (sym (IsAt-at ms k j r h))
        ∙ ap (λ p. p.1)
            (update-last refused reliable r.disconnect_timeout r.retry_timeout j (count_at k ms)
              r.expected_numbers k (take message_size (drop (j * message_size) (framed_at k ms)))
              (taken k j ms) (emptied r) h.below few (sym h.identifier) h.numbers
              (length-take message_size _) done)
        ∙ ap (λ b. completed b (emptied r))
            (taken-more k j ms
              ∙ ap (λ (l : ℕ). taken k l ms) done
              ∙ all_taken k ms
              ∙ sym (taken-next k ms))

    pub next-IsAt :
        suc j < count_at k ms
        → IsAt ms k (suc j) (arrival (fragment k (count_at k ms) (framed_at k ms) j) r)
    next-IsAt more = subst (IsAt ms k (suc j)) (sym (arrival-next more)) (record {
      identifier = h.identifier;
      number = refl;
      numbers = inr refl;
      ready = refl;
      pending = refl;
      answers = h.answers;
      inside = h.inside;
      below = more;
    })

    pub last-IsAt :
        suc j ≡ count_at k ms
        → IsAt ms (suc k) 0 (arrival (fragment k (count_at k ms) (framed_at k ms) j) r)
    last-IsAt done = subst (IsAt ms (suc k) 0) (sym (arrival-last done)) (record {
      identifier = omega (arith, h.identifier, sendable.few);
      number = refl;
      numbers = inl refl;
      ready = refl;
      pending = refl;
      answers = omega (arith, h.answers, length-append r.sent ((success_byte ∷ []) ∷ []));
      inside = inside;
      below = omega arith;
    })
