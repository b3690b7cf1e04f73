-- ===== src/Server/Keeps.antt =====
-- Invariants of actions, one rule for each way to build an action.
use asinc_roulette.Base.{
  ℕ, String, ◌≡◌, refl, Bool, true, false, List, [], ◌∷◌, Option, none, some, nat_eq, contains,
  if◌then◌else◌,
}
use asinc_roulette.Failure.{Error, Result, ok, err}
use asinc_roulette.Server.State.{
  Server, Action, Answer, Content, Link, pure, throw, lift, gets, or_throw, throw_if, modify, send,
  for_each, continue, deliver, ◌>>=◌,
}

-- `m` keeps `P`, whether it returns or throws.
pub record Keeps {D A : Type 0} (P : Server D → Type 0) (m : Action D A) : Type 0 where
  pub at : (s : Server D) → P s → P (m s).1

module _ {D A : Type 0} {P : Server D → Type 0} where
  pub Keeps-pure : (a : A) → Keeps P (pure a)
  unfolding pure
  Keeps-pure a = record { at = λ _ holds. holds }

  pub Keeps-throw : (e : Error) → Keeps P (throw {A = A} e)
  unfolding throw
  Keeps-throw e = record { at = λ _ holds. holds }

  pub Keeps-lift : (r : Result A) → Keeps P (lift r)
  unfolding lift
  Keeps-lift r = record { at = λ _ holds. holds }

  pub Keeps-gets : (f : Server D → A) → Keeps P (gets f)
  unfolding gets
  Keeps-gets f = record { at = λ _ holds. holds }

  pub Keeps-or_throw : (o : Option A) (e : Error) → Keeps P (or_throw o e)
  unfolding or_throw
  Keeps-or_throw none e = record { at = λ _ holds. holds }
  Keeps-or_throw (some a) e = record { at = λ _ holds. holds }

  pub Keeps-if :
      (c : Bool) (first second : Action D A)
      → (c ≡ true → Keeps P first)
      → (c ≡ false → Keeps P second)
      → Keeps P (if c then first else second)
  Keeps-if true first second kept _ = kept refl
  Keeps-if false first second _ kept = kept refl

module _ {D : Type 0} {P : Server D → Type 0} where
  pub Keeps-throw_if : (c : Bool) (e : Error) → Keeps P (throw_if c e)
  unfolding throw_if
  Keeps-throw_if c e = record { at = λ _ holds. holds }

  pub Keeps-modify :
      (f : Server D → Server D) → ((s : Server D) → P s → P (f s)) → Keeps P (modify f)
  unfolding modify
  Keeps-modify f k = record { at = k }

  pub Keeps-send :
      (id : ℕ) (status command : String) (content : Content)
      → ((s : Server D) (out : List Answer) → P s → P (record s { outbox = out }))
      → Keeps P (send id status command content)
  unfolding send
  Keeps-send id status command content k = record {
    at = λ s h. sent s h (contains id s.clients) (s.links id);
  }
    where
      a : Answer
      a = record { to = id; status = status; command = command; content = content }

      sent :
          (s : Server D)
          → P s
          → (c : Bool) (l : Link) → P (if c then deliver l a s else (ok tt, s)).1
      sent s h false l = h
      sent s h true Link.up = k s _ h
      sent s h true Link.missing = h
      sent s h true Link.broken = h

module _ {D A B : Type 0} {P : Server D → Type 0} where
  Keeps-continue :
      (r : Result A) (f : A → Action D B) (s : Server D)
      → ((a : A) → r ≡ ok a → Keeps P (f a))
      → P s
      → P (continue r f s).1
  Keeps-continue (ok a) f s k h = (k a refl).at s h
  Keeps-continue (err e) f s k h = h

  pub Keeps-bind :
      (first : Action D A) (next : A → Action D B)
      → Keeps P first
      → ((x : A) → Keeps P (next x))
      → Keeps P (first >>= next)
  unfolding ◌>>=◌
  Keeps-bind first next holds goes_on = record {
    at = λ s h.
        let (result, s') = first s in
        Keeps-continue result next s' (λ x _. goes_on x) (holds.at s h);
  }

  -- The rest may use what the state was when it was read.
  pub Keeps-bind-gets :
      (g : Server D → A) (f : A → Action D B)
      → ((s : Server D) → P s → Keeps P (f (g s)))
      → Keeps P (gets g >>= f)
  unfolding ◌>>=◌
  Keeps-bind-gets g f k = record { at = λ s h. (k s h).at s h }

  -- The rest may use that the value was there.
  pub Keeps-bind-or_throw :
      (o : Option A) (e : Error) (f : A → Action D B)
      → ((a : A) → o ≡ some a → Keeps P (f a))
      → Keeps P (or_throw o e >>= f)
  unfolding ◌>>=◌
  Keeps-bind-or_throw none e f k = record { at = λ _ holds. holds }
  Keeps-bind-or_throw (some a) e f k = record { at = λ s h. (k a refl).at s h }

  -- The rest may use what the result was.
  pub Keeps-bind-lift :
      (r : Result A) (f : A → Action D B)
      → ((a : A) → r ≡ ok a → Keeps P (f a))
      → Keeps P (lift r >>= f)
  unfolding ◌>>=◌
  Keeps-bind-lift r f k = record { at = λ s h. Keeps-continue r f s k h }

  -- The rest may use that what returns meets a postcondition.
  pub Keeps-bind-post :
      (Q : A → Type 0) (m : Action D A) (f : A → Action D B)
      → ((s : Server D) → P s → P (m s).1 × ((a : A) → (m s).0 ≡ ok a → Q a))
      → ((a : A) → Q a → Keeps P (f a))
      → Keeps P (m >>= f)
  unfolding ◌>>=◌
  Keeps-bind-post Q m f post k = record {
    at = λ s h.
        let (keeps, returns) = post s h in
        Keeps-continue (m s).0 f (m s).1 (λ a e. k a (returns a e)) keeps;
  }

module _ {D B : Type 0} {P : Server D → Type 0} where
  -- The rest may use that the test failed.
  pub Keeps-bind-throw_if :
      (c : Bool) (e : Error) (f : Unit → Action D B)
      → (c ≡ false → Keeps P (f tt))
      → Keeps P (throw_if c e >>= f)
  unfolding ◌>>=◌
  Keeps-bind-throw_if true e f k = record { at = λ _ holds. holds }
  Keeps-bind-throw_if false e f k = record { at = λ s h. (k refl).at s h }

module _ {D A : Type 0} {P : Server D → Type 0} where
  pub Keeps-for_each :
      (xs : List A) (f : A → Action D Unit) → ((a : A) → Keeps P (f a)) → Keeps P (for_each xs f)
  unfolding for_each
  Keeps-for_each [] f k = Keeps-pure tt
  Keeps-for_each (x ∷ xs) f k = Keeps-bind _ _ (k x) (λ _. Keeps-for_each xs f k)

pub ruleset keeps_rules = (
  Keeps-pure, Keeps-throw, Keeps-lift, Keeps-gets, Keeps-or_throw, Keeps-if, Keeps-throw_if,
  Keeps-modify, Keeps-bind, Keeps-for_each,
)
