-- ===== src/Transfer/Winsock/Roundtrip.antt =====
-- A message between two sockets for Windows (src/transfer/tcp/WinSocket.cpp): `receive` puts the
-- blocks of `send` together again.
use asinc_roulette.Base.{
  ℕ, zero, suc, ◌+◌, ◌*◌, ◌%◌, ◌^◌, ◌≤◌, ◌≡◌, refl, sym, ap, subst, ◌∙◌, true, false, List, [], ◌∷◌,
  ◌++◌, none, some, arith, length, length-append, take, drop, ltb, ◌==◌, nat_eq,
}
use native.Mathlib.Decide.{dec_le}
use mathlib.Core.List.{append_assoc}
use asinc_roulette.Base.Slices.{
  take-append-drop, length-drop, take-eq_of_length, take-append, take-add,
}
use asinc_roulette.Failure.{ok}
use asinc_roulette.Transfer.Framing.{Bytes, delimiter, find_delimiter, find_delimiter-framed}
use asinc_roulette.Transfer.Winsock.{
  Winsock, WinSocket, buffer_size, receive_loop, raw_receive, search_loop, receive, block,
  blocks_from, blocks,
}
use asinc_roulette.Transfer.Winsock.Blocks.{
  find_drop, find_take, length-block, block-inside, block-last, blocks_from-first, blocks_from-none,
}

module _ {W : Type 0} ⦃win : Winsock W⦄ where
  -- The system hands these blocks to a descriptor, one for each call of `recv`, and stands then
  -- where it stands at the end.
  pub data Supplies (d : ℕ) : List Bytes → W → W → Type 0 where
    done : (w : W) → Supplies d [] w w
    next :
        (b : Bytes) (bs : List Bytes) (w w' w'' : W)
        → win.recv d buffer_size w ≡ (some b, w')
        → Supplies d bs w' w''
        → Supplies d (b ∷ bs) w w''

  receive_loop-block :
      (rounds : ℕ) (b : Bytes) (s : WinSocket W) (w : W)
      → length b ≡ buffer_size
      → win.recv s.descriptor buffer_size s.system ≡ (some b, w)
      → receive_loop (suc (suc rounds)) [] s ≡ (ok b, record s { system = w })
  unfolding receive_loop
  receive_loop-block rounds [] s w size came = absurd (omega (arith, size))
  receive_loop-block rounds (x ∷ b) s w size came =
      let fits : ltb buffer_size (0 + length (x ∷ b)) ≡ false = ground (arith, size) in
      let full : ltb (length (x ∷ b)) buffer_size ≡ false = ground (arith, size) in
      rw (came, fits, full) (ap (λ p. (ok (x ∷ b), record s { system = p.1 })) came)

  -- A block of 512 bytes is received whole.
  raw_receive-block :
      (b : Bytes) (s : WinSocket W) (w : W)
      → length b ≡ buffer_size
      → win.recv s.descriptor buffer_size s.system ≡ (some b, w)
      → raw_receive s ≡ (ok b, record s { system = w })
  unfolding raw_receive
  raw_receive-block b s w size came = receive_loop-block 510 b s w size came

  search-continues :
      (rounds k : ℕ) (buffer b : Bytes) (s s' : WinSocket W)
      → raw_receive s ≡ (ok b, s')
      → find_delimiter b ≡ none
      → ltb k (2 ^ 31) ≡ true
      → search_loop (suc rounds) k buffer s ≡ search_loop rounds (k + 1) (buffer ++ b) s'
  unfolding search_loop
  search-continues rounds k buffer b s s' got nothing few =
      rw (search_loop, got, few, nothing)
        (ap (λ p. search_loop rounds (k + 1) (buffer ++ b) p.1) got)

  search-ends :
      (rounds k : ℕ) (buffer b before behind : Bytes) (s s' : WinSocket W)
      → raw_receive s ≡ (ok b, s')
      → find_delimiter b ≡ some (before, behind)
      → ltb k (2 ^ 31) ≡ true
      → search_loop (suc rounds) k buffer s
        ≡ some (ok (take (k * buffer_size + length before) (buffer ++ b)), s')
  unfolding search_loop
  search-ends rounds k buffer b before behind s s' got found few =
      rw (search_loop, got, few, found)
        (ap (λ p. some (ok (take (k * buffer_size + length before) (buffer ++ b)), p.1)) got)

  Supplies-first :
      (d : ℕ) (b : Bytes) (bs : List Bytes) (w w'' : W)
      → Supplies d (b ∷ bs) w w''
      → (w' : W) × (win.recv d buffer_size w ≡ (some b, w')) × Supplies d bs w' w''
  Supplies-first d b bs w w'' (next _ _ _ w' _ came rest) = (w', came, rest)

  Supplies-none : (d : ℕ) (w w' : W) → Supplies d [] w w' → w ≡ w'
  Supplies-none d w _ (done _) = refl

  module _ (stray : ℕ → ℕ → ℕ) (m : Bytes) (clean : find_delimiter m ≡ none)
      (whole : (length m % 512 == 511) ≡ false) (fits : length m + 514 ≤ 2 ^ 32) where
    search_loop-blocks :
        (rounds k : ℕ) (s : WinSocket W) (w : W)
        → k * 512 ≤ length m
        → length m + 2 ≤ k * 512 + rounds
        → Supplies s.descriptor (blocks_from stray rounds (k * 512) (m ++ delimiter)) s.system w
        → search_loop rounds k (take (k * 512) m) s ≡ some (ok m, record s { system = w })
    search_loop-blocks zero k s w inside enough supplies = absurd (omega arith)
    search_loop-blocks (suc rounds) k s w inside enough supplies =
        let left = k * 512 in
        let b = block stray left (m ++ delimiter) in
        let (w', came, rest) = Supplies-first s.descriptor b _ s.system w (
          subst (λ bs. Supplies s.descriptor bs s.system w)
            (blocks_from-first stray rounds left m inside fits) supplies) in
        let few : ltb k (2 ^ 31) ≡ true = ground arith in
        let got = raw_receive-block b s w' (length-block stray left (m ++ delimiter)) came in
        elim (dec_le (left + buffer_size) (length m)) [
          | yes more ↦
              let next : left + buffer_size ≡ (k + 1) * 512 = omega arith in
              let same = block-inside stray left m more in
              search-continues rounds k (take left m) b s (record s { system = w' }) got
                (ap find_delimiter same
                  ∙ find_take buffer_size (drop left m) (find_drop left m clean))
                few
              ∙ ap (λ xs. search_loop rounds (k + 1) xs (record s { system = w' }))
                  (ap (λ xs. take left m ++ xs) same
                    ∙ take-add left buffer_size m
                    ∙ ap (λ (n : ℕ). take n m) next)
              ∙ search_loop-blocks rounds (k + 1) (record s { system = w' }) w (omega arith)
                  (omega arith)
                  (subst
                    (λ (n : ℕ).
                      Supplies s.descriptor (blocks_from stray rounds n (m ++ delimiter)) w' w)
                    next rest)
          | no over ↦
              let ends : length m + 2 ≤ left + buffer_size = ground arith in
              let (behind, last) = block-last stray left m inside ends in
              let nothing =
                blocks_from-none stray rounds (left + buffer_size) (m ++ delimiter)
                  (omega (arith, length-append m delimiter)) in
              let at_end =
                Supplies-none s.descriptor w' w
                  (subst (λ bs. Supplies s.descriptor bs w' w) nothing rest) in
              let size : left + length (drop left m) ≡ length m =
                omega (arith, length-drop left m) in
              search-ends rounds k (take left m) b (drop left m) behind s (record s { system = w' })
                got
                (ap find_delimiter last
                  ∙ find_delimiter-framed (drop left m) behind (find_drop left m clean))
                few
              ∙ ap (λ (n : ℕ). some (ok (take n (take left m ++ b)), record s { system = w' })) size
              ∙ ap (λ xs. some (ok xs, record s { system = w' }))
                  (ap (λ xs. take (length m) (take left m ++ xs)) last
                    ∙ ap (take (length m)) (
                        sym (append_assoc (take left m) (drop left m) (13 ∷ 10 ∷ behind))
                        ∙ ap (λ xs. xs ++ 13 ∷ 10 ∷ behind) (take-append-drop left m))
                    ∙ take-append (length m) m (13 ∷ 10 ∷ behind) (omega arith)
                    ∙ take-eq_of_length (length m) m (omega arith))
              ∙ ap (λ v. some (ok m, record s { system = v })) at_end
        ]

    -- If the delimiter does not lie across the end of a block, and the system hands over the blocks
    -- that `send` makes of a message without a delimiter, of at most 4294966782 bytes, one for each `recv`, then `receive` returns
    -- the message, whatever stands behind its blocks in the memory of the sender.
    pub blocks_roundtrip :
        (s : WinSocket W) (w : W)
        → Supplies s.descriptor (blocks stray m) s.system w
        → receive (length (m ++ delimiter)) s ≡ some (ok m, record s { system = w })
    unfolding receive blocks
    blocks_roundtrip s w supplies =
        search_loop-blocks (length (m ++ delimiter)) 0 s w (omega arith)
          (omega (arith, length-append m delimiter)) supplies
