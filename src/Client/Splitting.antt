-- ===== src/Client/Splitting.antt =====
-- Cutting a text at a character, and dropping its beginning (`split` and `drop` of
-- src/session/strings.h).
use asinc_roulette.Base.{
  ℕ, ◌≡◌, refl, sym, ap, ◌∙◌, List, [], ◌∷◌, ◌++◌, ◌==◌, nat_eq, arith, length, drop, ltb,
  Bool-cases, inl, inr, if◌then◌else◌,
}
use mathlib.Core.List.{append_assoc, append-nil}
use asinc_roulette.Failure.{Result, ok, err, length_error}
use asinc_roulette.Client.Words.{Word}

-- One round of the loop of `split`, on `result` and `current`.
unfoldable split_step : ℕ → ℕ → List Word × Word → List Word × Word
split_step delimiter ch (result, current) =
    if ch == delimiter then (result ++ current ∷ [], []) else (result, current ++ ch ∷ [])

unfoldable split_loop : ℕ → Word → List Word × Word → List Word × Word
unfolding split_step
split_loop delimiter [] p = p
split_loop delimiter (ch ∷ string) p = split_loop delimiter string (split_step delimiter ch p)

unfoldable split : Word → ℕ → List Word
unfolding split_loop
split string delimiter =
    let (result, current) = split_loop delimiter string ([], []) in result ++ current ∷ []

-- Where the offset is larger than the size, the difference wraps around, and no string is that long.
unfoldable drop_text : Word → ℕ → Result Word
drop_text string offset =
    if ltb (length string) offset then err length_error else ok (drop offset string)

-- The words with the delimiter between them.
abbrev join : ℕ → List Word → Word
join delimiter [] = []
join delimiter (word ∷ []) = word
join delimiter (word ∷ next ∷ words) = word ++ delimiter ∷ join delimiter (next ∷ words)

join-append :
    (d : ℕ) (words : List Word) (a b : Word)
    → join d (words ++ a ∷ b ∷ []) ≡ join d (words ++ (a ++ d ∷ b) ∷ [])
join-append d [] a b = refl
join-append d (w ∷ []) a b = refl
join-append d (w ∷ v ∷ words) a b = ap (λ s. w ++ d ∷ s) (join-append d (v ∷ words) a b)

join-split_loop :
    (d : ℕ) (string : Word) (result : List Word) (current : Word)
    → join d (
        (split_loop d string (result, current)).0 ++ (split_loop d string (result, current)).1 ∷ [])
      ≡ join d (result ++ (current ++ string) ∷ [])
unfolding split_loop split_step
join-split_loop d [] result current = ap (λ w. join d (result ++ w ∷ [])) (sym (append-nil current))
join-split_loop d (ch ∷ string) result current = elim (Bool-cases (ch == d)) [
  | inl cut ↦
      let same : d ≡ ch = ground (arith, nat_eq.beq_iff ch d) in
      rw (split_loop, split_step, cut)
        (join-split_loop d string (result ++ current ∷ []) []
          ∙ ap (join d) (append_assoc result (current ∷ []) (string ∷ []))
          ∙ join-append d result current string
          ∙ ap (λ (x : ℕ). join d (result ++ (current ++ x ∷ string) ∷ [])) same)
  | inr other ↦
      rw (split_loop, split_step, other)
        (join-split_loop d string result (current ++ ch ∷ [])
          ∙ ap (λ w. join d (result ++ w ∷ [])) (append_assoc current (ch ∷ []) string))
]

-- With the delimiter between them, the words of `split` are the text again.
join-split : (string : Word) (d : ℕ) → join d (split string d) ≡ string
unfolding split
join-split string d = join-split_loop d string [] []
