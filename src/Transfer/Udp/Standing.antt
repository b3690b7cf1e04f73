-- ===== src/Transfer/Udp/Standing.antt =====
-- Where a receiver stands after some datagrams (`update` of src/transfer/udp/LinuxSocket.cpp) when
-- the network loses, repeats and reorders them.
use asinc_roulette.Base.{
  ℕ, zero, suc, ◌*◌, ◌%◌, ◌<◌, ◌≡◌, refl, sym, ap, subst, ◌∙◌, inl, inr, Bool, false, not, ◌||◌,
  List, [], ◌∷◌, ◌++◌, none, arith, length, take, ◌==◌, nat_eq, All, Bool-cases,
}
use native.Mathlib.Decide.{dec_le}
use asinc_roulette.Transfer.Framing.{
  Bytes, find_delimiter, messages, messages-append, extract, messages-wire, joined, wire,
}
use asinc_roulette.Transfer.Udp.{Socket, fresh, message_size, fragment}
use asinc_roulette.Transfer.Udp.Delivery.{deliver}
use asinc_roulette.Transfer.Udp.Network.{
  framed_at, count_at, taken, rest_of, taken-rest, IsAt, AreSendable, IsOf, package_at, other,
  count_small,
}
use asinc_roulette.Transfer.Udp.Outgoing.{IsCarried, send_all, carried-IsOf}
use asinc_roulette.Transfer.Udp.Arrivals.{
  arrival, arrival-stale, silent-IsAt, other-IsAt, next-IsAt, last-IsAt,
}

clean_taken :
    (k : ℕ) (ms : List Bytes)
    → All (λ m. find_delimiter m ≡ none) ms
    → All (λ m. find_delimiter m ≡ none) (take k ms)
clean_taken zero ms h = tt
clean_taken (suc k) [] h = tt
clean_taken (suc k) (m ∷ ms) h = (h.0, clean_taken k ms h.1)

-- The first list begins the second one.
abbrev pub IsPrefix : List Bytes → List Bytes → Type 0
IsPrefix xs ys = (rest : List Bytes) × (xs ++ rest ≡ ys)

module _ (ms : List Bytes) (sendable : AreSendable ms) (k j : ℕ) (r : Socket)
    (h : IsAt ms k j r) where
  pub IsAt-prefix : IsPrefix r.receive_buffer ms
  IsAt-prefix =
      let whole = messages-append (taken k j ms) (rest_of k j ms) in
      (
        (messages ((messages (taken k j ms)).1 ++ rest_of k j ms)).0,
        ap (λ xs. xs ++ (messages ((messages (taken k j ms)).1 ++ rest_of k j ms)).0) h.ready
            ∙ ap (λ p. p.0)
                (sym whole ∙ ap messages (taken-rest k j ms) ∙ messages-wire ms sendable.clean),
      )

  pub IsAt-answered : IsPrefix (take (length r.sent) ms) r.receive_buffer
  IsAt-answered =
      let part = take (j * message_size) (framed_at k ms) in
      let complete = messages-wire (take k ms) (clean_taken k ms sendable.clean) in
      (
        (messages part).0,
        ap (λ (l : ℕ). take l ms ++ (messages part).0) h.answers
            ∙ sym (
                h.ready
                ∙ ap (λ p. p.0)
                    (messages-append (wire (take k ms)) part ∙ ap (λ p. joined p part) complete)),
      )

module _ (refused : Bytes → Bool) where
  module _ (reliable : (d : Bytes) → refused d ≡ false) where
    module _ (ms : List Bytes) (sendable : AreSendable ms) where
      abbrev Moved : Bytes → Socket → Type 0
      Moved d r = (k : ℕ) × (j : ℕ) × IsAt ms k j (arrival refused d r)

      expected-Moved :
          (k j : ℕ) (r : Socket)
          → k < length ms
          → IsAt ms k j r
          → Moved (fragment k (count_at k ms) (framed_at k ms) j) r
      expected-Moved k j r inside h = elim (dec_le (suc (suc j)) (count_at k ms)) [
        | yes more ↦ (k, suc j, next-IsAt refused reliable ms k j r sendable inside h more)
        | no done ↦ (
          suc k,
          0,
          last-IsAt refused reliable ms k j r sendable inside h (omega (arith, h.below)),
        )
      ]

      arrival-Moved : (d : Bytes) (k j : ℕ) (r : Socket) → IsOf ms d → IsAt ms k j r → Moved d r
      arrival-Moved d k j r (other x rest not_user) h =
          (k, j, other-IsAt refused ms k j x rest r not_user h)
      arrival-Moved d k j r (package_at k' i inside below) h =
          let few = count_small k' ms sendable.small in
          elim (Bool-cases (not (k' == r.expected_id) || not (i % 256 == r.expected_number))) [
            | inl stale ↦
                let unmoved =
                  arrival-stale refused k' (count_at k' ms) i (framed_at k' ms) r stale in
                (k, j, subst (IsAt ms k j) (sym unmoved) (silent-IsAt ms k j r h))
            | inr wanted ↦
                let same : k' ≡ k = ground (arith, h.identifier, nat_eq.beq_iff k' r.expected_id) in
                let next : i ≡ j = ground (arith, h.number, nat_eq.beq_iff i r.expected_number) in
                subst (λ (l : ℕ). Moved (fragment l (count_at l ms) (framed_at l ms) i) r)
                  (sym same)
                  (subst (λ (l : ℕ). Moved (fragment k (count_at k ms) (framed_at k ms) l) r)
                    (sym next) (expected-Moved k j r (omega arith) h))
          ]

      pub deliver-IsAt :
          (ds : List Bytes) (k j : ℕ) (r : Socket)
          → All (IsCarried (send_all refused ms fresh).sent) ds
          → IsAt ms k j r
          → (k' : ℕ) × (j' : ℕ) × IsAt ms k' j' (deliver refused ds r)
      unfolding deliver
      deliver-IsAt [] k j r hs h = (k, j, h)
      deliver-IsAt (d ∷ ds) k j r hs h =
          let (k', j', h') =
            arrival-Moved d k j r (carried-IsOf refused reliable ms sendable d hs.0) h in
          deliver-IsAt ds k' j' (arrival refused d r) hs.1 h'

      pub fresh-IsAt : IsAt ms 0 0 fresh
      unfolding messages extract
      fresh-IsAt = record {
        identifier = refl;
        number = refl;
        numbers = inl refl;
        ready = refl;
        pending = refl;
        answers = refl;
        inside = omega arith;
        below = omega arith;
      }
