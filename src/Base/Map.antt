-- ===== src/Base/Map.antt =====
-- A map of the standard library as an association list. The order of the list stands for the
-- order of iteration, which `std::unordered_map` leaves open.
use mathlib.Core.Path.{◌≡◌, refl, subst}
use mathlib.Core.Logic.{inl, inr}
use mathlib.Core.Bool.{Bool, true, false}
use mathlib.Core.Option.{Option, none, some}
use mathlib.Core.List.{List, [], ◌∷◌}
use native.Mathlib.Omega.{arith}
use asinc_roulette.Base.Equality.{Eq, ◌==◌}
use asinc_roulette.Base.Lists.{all, All}
use asinc_roulette.Base.Tests.{Bool-cases, if◌then◌else◌}

abbrev pub Map : Type 0 → Type 0 → Type 0
Map K V = List (K × V)

module _ {K V : Type 0} ⦃e : Eq K⦄ where
  unfoldable pub lookup : K → Map K V → Option V
  lookup k [] = none
  lookup k ((j, v) ∷ m) = if k == j then some v else lookup k m

  -- `m.count(k) != 0`
  abbrev pub member : K → Map K V → Bool
  member k m = elim (lookup k m) [ none ↦ false | some _ ↦ true ]

  -- `m[k] = v`
  unfoldable pub insert : K → V → Map K V → Map K V
  insert k v [] = (k, v) ∷ []
  insert k v ((j, w) ∷ m) = let rest = insert k v m in if k == j then (j, v) ∷ m else (j, w) ∷ rest

  -- `m.erase(k)`
  unfoldable pub erase : K → Map K V → Map K V
  erase k [] = []
  erase k ((j, w) ∷ m) = let rest = erase k m in if k == j then rest else (j, w) ∷ rest

  pub lookup-insert :
      (k j : K) (v : V) (m : Map K V)
      → lookup j (insert k v m) ≡ (if j == k then some v else lookup j m)
  unfolding lookup insert
  lookup-insert k j v [] = refl
  lookup-insert k j v ((i, w) ∷ m) =
      ground (arith, e.beq_iff j k, e.beq_iff k i, e.beq_iff j i, lookup-insert k j v m)

  pub lookup-erase :
      (k j : K) (m : Map K V) → lookup j (erase k m) ≡ (if j == k then none else lookup j m)
  unfolding lookup erase
  lookup-erase k j [] = ground arith
  lookup-erase k j ((i, w) ∷ m) =
      ground (arith, e.beq_iff j k, e.beq_iff k i, e.beq_iff j i, lookup-erase k j m)

  -- What holds of all entries holds of the one that is found.
  pub lookup-All {ℓ} :
      (P : K × V → Type ℓ) (k : K) (m : Map K V) {v : V} → All P m → lookup k m ≡ some v → P (k, v)
  unfolding lookup
  lookup-All P k [] h f = cc
  lookup-All P k ((j, w) ∷ m) {v} h f = elim (Bool-cases (k == j)) [
    | inl hit ↦ let same : (j, w) ≡ (k, v) = ground (arith, e.beq_iff k j) in subst P same h.0
    | inr miss ↦ lookup-All P k m h.1 (ground arith)
  ]

  pub all-lookup :
      (p : K × V → Bool) (k : K) (m : Map K V) {v : V}
      → all p m ≡ true
      → lookup k m ≡ some v
      → p (k, v) ≡ true
  unfolding lookup
  all-lookup p k [] h f = cc
  all-lookup p k ((j, w) ∷ m) {v} h f = elim (Bool-cases (k == j)) [
    | inl hit ↦
        let same : (j, w) ≡ (k, v) = ground (arith, e.beq_iff k j) in
        subst (λ (en : K × V). p en ≡ true) same (ground arith)
    | inr miss ↦ all-lookup p k m (ground arith) (ground arith)
  ]

  pub insert-All {ℓ} :
      (P : K × V → Type ℓ) (k : K) (v : V) (m : Map K V)
      → All P m
      → ((j : K) → k ≡ j → P (j, v))
      → All P (insert k v m)
  unfolding insert
  insert-All P k v [] h p = (p k refl, tt)
  insert-All P k v ((j, w) ∷ m) h p = ground (arith, p j, e.beq_iff k j, insert-All P k v m h.1 p)

  pub erase-All {ℓ} : (P : K × V → Type ℓ) (k : K) (m : Map K V) → All P m → All P (erase k m)
  unfolding erase
  erase-All P k [] h = tt
  erase-All P k ((j, w) ∷ m) h = ground (arith, erase-All P k m h.1)

pub ruleset map_laws = (lookup-insert, lookup-erase)
