-- ===== src/Transfer/Winsock/Blocks.antt =====
-- The blocks that `send` makes of a message (src/transfer/tcp/WinSocket.cpp), and where its end is
-- found in them.
use asinc_roulette.Base.{
  ℕ, zero, suc, ◌+◌, ◌-◌, ◌%◌, ◌^◌, ◌≤◌, ◌≡◌, refl, sym, ap, ◌∙◌, true, false, ◌&&◌, [], ◌∷◌, ◌++◌,
  none, arith, length, length-append, take, drop, ltb, ◌==◌, nat_eq, Bool-cases, Option-cases, inl,
  inr,
}
use mathlib.Core.List.{append_assoc}
use asinc_roulette.Base.Slices.{
  length-drop, take-eq_of_length, take-append, take-behind, drop-append, take-take_append,
  length-taken,
}
use asinc_roulette.Transfer.Framing.{Bytes, delimiter, find_delimiter}
use asinc_roulette.Transfer.Winsock.{buffer_size, strays, block, blocks_from}

-- No delimiter begins with the first byte, and none stands behind it.
without_first :
    (x y : ℕ) (m : Bytes)
    → find_delimiter (x ∷ y ∷ m) ≡ none
    → ((x == 13 && y == 10) ≡ false) × (find_delimiter (y ∷ m) ≡ none)
unfolding find_delimiter
without_first x y m h = elim (Bool-cases (x == 13 && y == 10)) [
  | inl here ↦ absurd (ground arith)
  | inr no_delimiter ↦ elim (Option-cases (find_delimiter (y ∷ m))) [
    | inl missing ↦ (no_delimiter, missing)
    | inr (found, e) ↦ absurd (ground arith)
  ]
]

pub find_drop : (l : ℕ) (m : Bytes) → find_delimiter m ≡ none → find_delimiter (drop l m) ≡ none
unfolding find_delimiter
find_drop zero m h = h
find_drop (suc l) [] h = h
find_drop (suc zero) (x ∷ []) h = refl
find_drop (suc (suc l)) (x ∷ []) h = refl
find_drop (suc l) (x ∷ y ∷ m) h = find_drop l (y ∷ m) (without_first x y m h).1

pub find_take : (l : ℕ) (m : Bytes) → find_delimiter m ≡ none → find_delimiter (take l m) ≡ none
unfolding find_delimiter
find_take zero m h = refl
find_take (suc l) [] h = refl
find_take (suc zero) (x ∷ m) h = refl
find_take (suc (suc l)) (x ∷ []) h = refl
find_take (suc (suc l)) (x ∷ y ∷ m) h =
    let (no_delimiter, rest) = without_first x y m h in
    rw (no_delimiter, find_take (suc l) (y ∷ m) rest) refl

module _ (stray : ℕ → ℕ → ℕ) where
  length-strays : (n left : ℕ) → length (strays stray n left) ≡ n
  unfolding strays
  length-strays zero left = refl
  length-strays (suc n) left = omega (arith, length-strays n left)

  pub length-block : (left : ℕ) (message : Bytes) → length (block stray left message) ≡ buffer_size
  unfolding block
  length-block left message =
      let shown = take (left + buffer_size) (drop left message) in
      length-taken buffer_size (shown ++ 0 ∷ strays stray buffer_size left) (
        omega (
          arith,
          length-append shown (0 ∷ strays stray buffer_size left),
          length-strays buffer_size left,
        ))

  pub block-inside :
      (left : ℕ) (m : Bytes)
      → left + buffer_size ≤ length m
      → block stray left (m ++ delimiter) ≡ take buffer_size (drop left m)
  unfolding block
  block-inside left m inside =
      let rest = length-drop left m in
      ap
        (λ xs. take buffer_size (take (left + buffer_size) xs ++ 0 ∷ strays stray buffer_size left))
        (drop-append left m delimiter (omega arith))
      ∙ take-take_append buffer_size (left + buffer_size) (drop left m ++ delimiter) _ (omega arith)
          (omega (arith, rest, length-append (drop left m) delimiter))
      ∙ take-append buffer_size (drop left m) delimiter (omega (arith, rest))

  pub block-last :
      (left : ℕ) (m : Bytes)
      → left ≤ length m
      → length m + 2 ≤ left + buffer_size
      → (behind : Bytes) × (block stray left (m ++ delimiter) ≡ drop left m ++ 13 ∷ 10 ∷ behind)
  unfolding block
  block-last left m inside ends =
      let rest = length-drop left m in
      let behind = 0 ∷ strays stray buffer_size left in
      let room : length (drop left m) + suc (suc (510 - length (drop left m))) ≡ buffer_size =
        omega (arith, rest) in
      (
        take (510 - length (drop left m)) behind,
        ap (λ xs. take buffer_size (take (left + buffer_size) xs ++ behind))
              (drop-append left m delimiter inside)
            ∙ ap (λ xs. take buffer_size (xs ++ behind))
                (take-eq_of_length (left + buffer_size) (drop left m ++ delimiter)
                  (omega (arith, rest, length-append (drop left m) delimiter)))
            ∙ ap (take buffer_size) (append_assoc (drop left m) delimiter behind)
            ∙ ap (λ (n : ℕ). take n (drop left m ++ (delimiter ++ behind))) (sym room)
            ∙ take-behind (suc (suc (510 - length (drop left m)))) (drop left m)
                (delimiter ++ behind),
      )

  pub blocks_from-first :
      (rounds left : ℕ) (m : Bytes)
      → left ≤ length m
      → length m + 514 ≤ 2 ^ 32
      → blocks_from stray (suc rounds) left (m ++ delimiter)
        ≡ block stray left (m ++ delimiter)
          ∷ blocks_from stray rounds (left + buffer_size) (m ++ delimiter)
  unfolding blocks_from
  blocks_from-first rounds left m inside fits =
      let more : ltb left (length (m ++ delimiter)) ≡ true =
        ground (arith, length-append m delimiter) in
      let wraps : (left + buffer_size) % 2 ^ 32 ≡ left + buffer_size = omega arith in
      rw (more, wraps) refl

  pub blocks_from-none :
      (rounds left : ℕ) (message : Bytes)
      → length message ≤ left
      → blocks_from stray rounds left message ≡ []
  unfolding blocks_from
  blocks_from-none zero left message over = refl
  blocks_from-none (suc rounds) left message over =
      let no_more : ltb left (length message) ≡ false = ground arith in rw no_more refl
