-- ===== src/Base/Lists.antt =====
-- Lists measured by native numbers, tests over lists, and predicates on all their elements.
use Prim.Native.Nat.{ℕ, zero, suc, ◌+◌, ◌≤◌, ◌<◌}
use mathlib.Core.Path.{◌≡◌, refl}
use mathlib.Core.Bool.{Bool, true, false, ◌&&◌, ◌||◌}
use mathlib.Core.Option.{Option, none, some}
use mathlib.Core.List.{List, [], ◌∷◌, ◌++◌}
use native.Mathlib.Omega.{arith}
use asinc_roulette.Base.Equality.{Eq, ◌==◌}
use asinc_roulette.Base.Tests.{if◌then◌else◌}

module _ {ℓ} {A : Type ℓ} where
  abbrev pub length : List A → ℕ
  length [] = 0
  length (x ∷ xs) = suc (length xs)

  abbrev pub get_elem? : List A → ℕ → Option A
  get_elem? [] i = none
  get_elem? (x ∷ xs) zero = some x
  get_elem? (x ∷ xs) (suc i) = get_elem? xs i

  abbrev pub take : ℕ → List A → List A
  take zero xs = []
  take (suc n) [] = []
  take (suc n) (x ∷ xs) = x ∷ take n xs

  abbrev pub drop : ℕ → List A → List A
  drop zero xs = xs
  drop (suc n) [] = []
  drop (suc n) (x ∷ xs) = drop n xs

  pub length-append : (xs ys : List A) → length (xs ++ ys) ≡ length xs + length ys
  length-append [] ys = omega arith
  length-append (x ∷ xs) ys = omega (arith, length-append xs ys)

  -- Every element satisfies the test.
  abbrev pub all : (A → Bool) → List A → Bool
  all p [] = true
  all p (x ∷ xs) = p x && all p xs

  abbrev pub All {κ} : (A → Type κ) → List A → Type κ
  All P [] = Unit
  All P (x ∷ xs) = P x × All P xs

-- Every number below the bound satisfies the test.
abbrev pub all_below : ℕ → (ℕ → Bool) → Bool
all_below zero p = true
all_below (suc n) p = p n && all_below n p

pub all_below_sound : (n : ℕ) (p : ℕ → Bool) (x : ℕ) → all_below n p ≡ true → x < n → p x ≡ true
all_below_sound zero p x h lt = absurd (omega arith)
all_below_sound (suc n) p x h lt = ground (arith, all_below_sound n p x)

module _ {ℓ} {A : Type ℓ} ⦃e : Eq A⦄ where
  -- `s.count(a) != 0` of a set.
  unfoldable pub contains : A → List A → Bool
  contains a [] = false
  contains a (x ∷ xs) = a == x || contains a xs

  -- `s.emplace(a)` of a set.
  unfoldable pub emplace : A → List A → List A
  unfolding contains
  emplace a xs = if contains a xs then xs else a ∷ xs

  -- `s.erase(a)` of a set.
  unfoldable pub erase_key : A → List A → List A
  erase_key a [] = []
  erase_key a (x ∷ xs) = let rest = erase_key a xs in if a == x then rest else x ∷ rest

  pub length-erase_key : (a : A) (xs : List A) → length (erase_key a xs) ≤ length xs
  unfolding erase_key
  length-erase_key a [] = omega arith
  length-erase_key a (x ∷ xs) = ground (arith, length-erase_key a xs)

  pub length-emplace : (a : A) (xs : List A) → length (emplace a xs) ≤ length xs + 1
  unfolding emplace
  length-emplace a xs = ground arith

  pub contains-erase_key : (a : A) (xs : List A) → contains a (erase_key a xs) ≡ false
  unfolding contains erase_key
  contains-erase_key a [] = refl
  contains-erase_key a (x ∷ xs) = ground (arith, contains-erase_key a xs)

  pub contains-emplace : (a : A) (xs : List A) → contains a (emplace a xs) ≡ true
  unfolding emplace
  contains-emplace a xs = ground (arith, e.beq_iff a a)

  pub contains-emplace_other :
      (a b : A) (xs : List A) → contains a xs ≡ true → contains a (emplace b xs) ≡ true
  unfolding emplace
  contains-emplace_other a b xs h = ground arith

  pub contains-erase_key_ne :
      (a b : A) (xs : List A) → (a == b) ≡ false → contains a (erase_key b xs) ≡ contains a xs
  unfolding contains erase_key
  contains-erase_key_ne a b [] h = refl
  contains-erase_key_ne a b (x ∷ xs) h =
      ground (arith, contains-erase_key_ne a b xs h, e.beq_iff a b, e.beq_iff b x, e.beq_iff a x)
