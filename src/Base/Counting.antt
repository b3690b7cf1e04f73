-- ===== src/Base/Counting.antt =====
-- How often a number occurs in a list.
use Prim.Native.Nat.{ℕ, suc, ◌≤◌}
use mathlib.Core.Path.{◌≡◌, refl}
use mathlib.Core.Bool.{Bool, true, false, not, ◌&&◌}
use mathlib.Core.List.{List, [], ◌∷◌}
use native.Mathlib.Omega.{arith}
use asinc_roulette.Base.Equality.{◌==◌, nat_eq}
use asinc_roulette.Base.Lists.{contains, emplace, erase_key}
use asinc_roulette.Base.Tests.{Bool-cases, if◌then◌else◌}

unfoldable pub count : ℕ → List ℕ → ℕ
count a [] = 0
count a (x ∷ xs) = let rest = count a xs in if a == x then suc rest else rest

pub count-none : (a : ℕ) (xs : List ℕ) → contains a xs ≡ false → count a xs ≡ 0
unfolding count contains
count-none a [] h = refl
count-none a (x ∷ xs) h = ground (arith, count-none a xs)

pub count-some : (a : ℕ) (xs : List ℕ) → contains a xs ≡ true → 1 ≤ count a xs
unfolding count contains
count-some a [] h = cc
count-some a (x ∷ xs) h = ground (arith, count-some a xs)

pub contains-count : (a : ℕ) (xs : List ℕ) → 1 ≤ count a xs → contains a xs ≡ true
unfolding count contains
contains-count a [] h = absurd (omega arith)
contains-count a (x ∷ xs) h = ground (arith, contains-count a xs)

pub count-erase_key :
    (a b : ℕ) (xs : List ℕ) → count a (erase_key b xs) ≡ (if a == b then 0 else count a xs)
unfolding count erase_key
count-erase_key a b [] = ground arith
count-erase_key a b (x ∷ xs) =
    ground
      (arith, nat_eq.beq_iff a b, nat_eq.beq_iff b x, nat_eq.beq_iff a x, count-erase_key a b xs)

-- An element that was not there is there once.
pub count-emplace :
    (a b : ℕ) (xs : List ℕ)
    → contains b xs ≡ false
    → count a (emplace b xs) ≡ (if a == b then 1 else count a xs)
unfolding count emplace
count-emplace a b xs h = ground (arith, nat_eq.beq_iff a b, count-none b xs h)

-- The elements that pass a test, in their order.
abbrev pub those : (ℕ → Bool) → List ℕ → List ℕ
those p [] = []
those p (x ∷ xs) = if p x then x ∷ those p xs else those p xs

pub those-same : (p q : ℕ → Bool) (xs : List ℕ) → ((x : ℕ) → p x ≡ q x) → those p xs ≡ those q xs
those-same p q [] same = refl
those-same p q (x ∷ xs) same = rw (same x, those-same p q xs same) refl

pub contains-those :
    (p : ℕ → Bool) (a : ℕ) (xs : List ℕ) → contains a (those p xs) ≡ (contains a xs && p a)
unfolding contains
contains-those p a [] = refl
contains-those p a (x ∷ xs) = ground (arith, nat_eq.beq_iff a x, contains-those p a xs)

pub count-those : (p : ℕ → Bool) (a : ℕ) (xs : List ℕ) → count a (those p xs) ≤ count a xs
unfolding count
count-those p a [] = omega arith
count-those p a (x ∷ xs) = ground (arith, count-those p a xs)

pub contains-erase_key_eq :
    (id j : ℕ) (ids : List ℕ) → contains j (erase_key id ids) ≡ (contains j ids && not (j == id))
unfolding contains erase_key
contains-erase_key_eq id j [] = refl
contains-erase_key_eq id j (x ∷ ids) = ground (
  arith,
  nat_eq.beq_iff j x,
  nat_eq.beq_iff id x,
  nat_eq.beq_iff j id,
  contains-erase_key_eq id j ids,
)

-- Another element was there before.
pub contains-emplace_eq :
    (id j : ℕ) (ids : List ℕ)
    → contains j (emplace id ids) ≡ true
    → (j == id) ≡ false
    → contains j ids ≡ true
unfolding emplace contains
contains-emplace_eq id j ids there other = ground (arith, Bool-cases (contains id ids))
