-- ===== src/Stateful.antt =====
-- Code that changes a state and may throw: what was written before an exception stays written.
-- Nothing here models code of the program.
use asinc_roulette.Base.{Bool, List, [], ◌∷◌, if◌then◌else◌}
use asinc_roulette.Failure.{Error, Result, ok, err}

abbrev pub Action : Type 0 → Type 0 → Type 0
Action S A = S → Result A × S

module _ {S A : Type 0} where
  abbrev pub pure : A → Action S A
  pure a s = (ok a, s)

  abbrev pub throw : Error → Action S A
  throw e s = (err e, s)

module _ {S : Type 0} where
  abbrev pub modify : (S → S) → Action S Unit
  modify f s = (ok tt, f s)

  -- `if (c) { m }`
  abbrev pub when : Bool → Action S Unit → Action S Unit
  when c m s = if c then m s else (ok tt, s)

module _ {S A B : Type 0} where
  abbrev pub continue : Result A → (A → Action S B) → Action S B
  continue (ok a) f s = f a s
  continue (err e) f s = (err e, s)

  infixl 5 ◌>>=◌ ◌>>◌
  abbrev pub ◌>>=◌ : Action S A → (A → Action S B) → Action S B
  ◌>>=◌ m f s = let (r, s') = m s in continue r f s'

  abbrev pub ◌>>◌ : Action S A → Action S B → Action S B
  m >> n = m >>= λ _. n

module _ {S A : Type 0} where
  -- `for (auto &&x : xs) f(x);`
  unfoldable pub for_each : (A → Action S Unit) → List A → Action S Unit
  for_each f [] s = (ok tt, s)
  for_each f (x ∷ xs) s = let (r, s') = f x s in continue r (λ _. for_each f xs) s'
