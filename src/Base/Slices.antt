-- ===== src/Base/Slices.antt =====
-- Laws of `take` and `drop`.
use Prim.Native.Nat.{ℕ, zero, suc, ◌+◌, ◌-◌, ◌≤◌, min}
use mathlib.Core.Path.{◌≡◌, refl, sym, ap, ◌∙◌}
use mathlib.Core.List.{List, [], ◌∷◌, ◌++◌}
use native.Mathlib.Omega.{arith}
use native.Mathlib.Decide.{dec_le}
use asinc_roulette.Base.Lists.{length, take, drop}

module _ {ℓ} {A : Type ℓ} where
  pub take-append-drop : (n : ℕ) (xs : List A) → take n xs ++ drop n xs ≡ xs
  take-append-drop zero xs = refl
  take-append-drop (suc n) [] = refl
  take-append-drop (suc n) (x ∷ xs) = ap (◌∷◌ x) (take-append-drop n xs)

  pub length-drop : (n : ℕ) (xs : List A) → length (drop n xs) ≡ length xs - n
  length-drop zero xs = omega arith
  length-drop (suc n) [] = omega arith
  length-drop (suc n) (x ∷ xs) = omega (arith, length-drop n xs)

  pub take-take : (m n : ℕ) (xs : List A) → m ≤ n → take m (take n xs) ≡ take m xs
  take-take zero n xs h = refl
  take-take (suc m) zero xs h = absurd (omega arith)
  take-take (suc m) (suc n) [] h = refl
  take-take (suc m) (suc n) (x ∷ xs) h = ap (◌∷◌ x) (take-take m n xs (omega arith))

  pub take-eq_of_length : (n : ℕ) (xs : List A) → length xs ≤ n → take n xs ≡ xs
  take-eq_of_length zero [] h = refl
  take-eq_of_length zero (x ∷ xs) h = absurd (omega arith)
  take-eq_of_length (suc n) [] h = refl
  take-eq_of_length (suc n) (x ∷ xs) h = ap (◌∷◌ x) (take-eq_of_length n xs (omega arith))

  pub drop-eq_of_length : (n : ℕ) (xs : List A) → length xs ≤ n → drop n xs ≡ []
  drop-eq_of_length zero [] h = refl
  drop-eq_of_length zero (x ∷ xs) h = absurd (omega arith)
  drop-eq_of_length (suc n) [] h = refl
  drop-eq_of_length (suc n) (x ∷ xs) h = drop-eq_of_length n xs (omega arith)

  drop-nil : (n : ℕ) → drop {A = A} n [] ≡ []
  drop-nil zero = refl
  drop-nil (suc n) = refl

  pub drop-drop : (m n : ℕ) (xs : List A) → drop m (drop n xs) ≡ drop (n + m) xs
  drop-drop m zero xs = let e : m ≡ zero + m = omega arith in ap (λ (k : ℕ). drop k xs) e
  drop-drop m (suc n) [] = drop-nil m ∙ sym (drop-nil (suc n + m))
  drop-drop m (suc n) (x ∷ xs) =
      let e : suc (n + m) ≡ suc n + m = omega arith in
      drop-drop m n xs ∙ ap (λ (k : ℕ). drop k (x ∷ xs)) e

  pub take-min : (n : ℕ) (xs : List A) → take (min n (length xs)) xs ≡ take n xs
  take-min n xs = elim (dec_le (length xs) n) [
    | yes short ↦
        let e : min n (length xs) ≡ length xs = omega arith in
        rw e (take-eq_of_length (length xs) xs (omega arith) ∙ sym (take-eq_of_length n xs short))
    | no long ↦ let e : min n (length xs) ≡ n = omega arith in rw e
  ]

  pub length-take : (n : ℕ) (xs : List A) → length (take n xs) ≤ n
  length-take zero xs = omega arith
  length-take (suc n) [] = omega arith
  length-take (suc n) (x ∷ xs) = omega (arith, length-take n xs)

  take-nil : (n : ℕ) → take {A = A} n [] ≡ []
  take-nil zero = refl
  take-nil (suc n) = refl

  pub take-add : (n m : ℕ) (xs : List A) → take n xs ++ take m (drop n xs) ≡ take (n + m) xs
  take-add zero m xs = let e : m ≡ zero + m = omega arith in ap (λ (k : ℕ). take k xs) e
  take-add (suc n) m [] = take-nil m ∙ sym (take-nil (suc n + m))
  take-add (suc n) m (x ∷ xs) =
      let e : suc (n + m) ≡ suc n + m = omega arith in
      ap (◌∷◌ x) (take-add n m xs) ∙ ap (λ (k : ℕ). take k (x ∷ xs)) e

  pub take-append : (n : ℕ) (xs ys : List A) → n ≤ length xs → take n (xs ++ ys) ≡ take n xs
  take-append zero xs ys h = refl
  take-append (suc n) [] ys h = absurd (omega arith)
  take-append (suc n) (x ∷ xs) ys h = ap (◌∷◌ x) (take-append n xs ys (omega arith))

  pub take-behind : (n : ℕ) (xs ys : List A) → take (length xs + n) (xs ++ ys) ≡ xs ++ take n ys
  take-behind n [] ys = let e : 0 + n ≡ n = omega arith in ap (λ (k : ℕ). take k ys) e
  take-behind n (x ∷ xs) ys =
      let e : suc (length xs) + n ≡ suc (length xs + n) = omega arith in
      ap (λ (k : ℕ). take k (x ∷ (xs ++ ys))) e ∙ ap (◌∷◌ x) (take-behind n xs ys)

  pub drop-append : (n : ℕ) (xs ys : List A) → n ≤ length xs → drop n (xs ++ ys) ≡ drop n xs ++ ys
  drop-append zero xs ys h = refl
  drop-append (suc n) [] ys h = absurd (omega arith)
  drop-append (suc n) (x ∷ xs) ys h = drop-append n xs ys (omega arith)

  pub take-take_append :
      (n r : ℕ) (xs ys : List A) → n ≤ r → n ≤ length xs → take n (take r xs ++ ys) ≡ take n xs
  take-take_append zero r xs ys h k = refl
  take-take_append (suc n) zero xs ys h k = absurd (omega arith)
  take-take_append (suc n) (suc r) [] ys h k = absurd (omega arith)
  take-take_append (suc n) (suc r) (x ∷ xs) ys h k =
      ap (◌∷◌ x) (take-take_append n r xs ys (omega arith) (omega arith))

  pub length-taken : (n : ℕ) (xs : List A) → n ≤ length xs → length (take n xs) ≡ n
  length-taken zero xs h = refl
  length-taken (suc n) [] h = absurd (omega arith)
  length-taken (suc n) (x ∷ xs) h = omega (arith, length-taken n xs (omega arith))
