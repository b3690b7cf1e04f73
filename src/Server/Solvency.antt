-- ===== src/Server/Solvency.antt =====
-- What the payments of a spin leave of a balance that covers the bets (src/core/Server.cpp,
-- `do_spin` and `pay`).
use asinc_roulette.Base.{
  ℕ, ◌+◌, ◌-◌, ◌*◌, ◌≤◌, ◌<◌, ◌^◌, String, ◌≡◌, refl, Bool, true, false, List, [], ◌∷◌, ◌++◌, none,
  some, arith, string_eq, leb, leb→le, All, ap, ◌∙◌,
}
use asinc_roulette.Base.Int.{ℤ, pos, pos_part, ◌+ℤ◌, ◌-ℤ◌, ◌*ℤ◌, wrap32, IsInt}
use asinc_roulette.Base.Map.{lookup, all-lookup}
use asinc_roulette.Failure.{ok}
use asinc_roulette.Roulette.Bets.{Bet, multipliers, max_number}
use asinc_roulette.Roulette.Rules.{validate}
use asinc_roulette.Roulette.Odds.{accepted_settles}
use asinc_roulette.Storage.{User}
use asinc_roulette.Server.State.{Table}
use asinc_roulette.Server.Game.{staked, payment, payment_of}
use asinc_roulette.Server.Money.{total_stake, refusal, settle, settle-cons}

-- A bet that the client program lets through: `ClientCommands` refuses negative values, and the
-- server accepts its type and number.
pub record IsStake (b : Bet) : Type 0 where
  pub number : IsInt b.number
  pub valid : validate b ≡ ok tt
  pub amount : b.value ≡ pos (pos_part b.value)

abbrev pub stakes : List Bet → ℕ
stakes [] = 0
stakes (b ∷ bets) = pos_part b.value + stakes bets

step_won :
    (b v m : ℕ) → b + v * m < 2 ^ 31 → wrap32 (pos b +ℤ wrap32 (pos v *ℤ pos m)) ≡ pos (b + v * m)
unfolding wrap32 ◌+ℤ◌ ◌*ℤ◌
step_won b v m h = ground arith

step_lost : (b v : ℕ) → v ≤ b → b < 2 ^ 31 → wrap32 (pos b +ℤ wrap32 (pos 0 -ℤ pos v)) ≡ pos (b - v)
unfolding wrap32 ◌+ℤ◌ ◌-ℤ◌
step_lost b v h k = ground arith

pub wrap_add : (a v : ℕ) (x : ℤ) → x ≡ pos v → a + v < 2 ^ 31 → wrap32 (pos a +ℤ x) ≡ pos (a + v)
unfolding wrap32 ◌+ℤ◌
wrap_add a v x e h = rw e (ground arith)

pub refusal_covers :
    (u : User) (t : Table) (bet : Bet) (b v : ℕ)
    → refusal u t bet ≡ none
    → u.balance ≡ pos b
    → total_stake u.login t bet ≡ pos v
    → v ≤ b
refusal_covers u t bet b v free e total = ground arith

multiplier-le : (t : String) {m : ℕ} → lookup t multipliers ≡ some m → m ≤ 35
multiplier-le t {m} e =
    leb→le m 35 (all-lookup (λ (en : String × ℕ). leb en.1 35) t multipliers refl e)

-- What one bet of `v` leaves of a balance that covers it.
abbrev Leaves : ℕ → ℕ → Bet → ℕ → Bool → Type 0
Leaves n b bet v w =
    (value : ℤ) × (b' : ℕ) × (payment_of w bet ≡ some value)
    × (wrap32 (pos b +ℤ value) ≡ pos b')
    × (b ≤ b' + v)
    × (b' ≤ b + 35 * v)

leaves :
    (n b v m : ℕ) (bet : Bet) (w : Bool)
    → bet.value ≡ pos v
    → lookup bet.type multipliers ≡ some m
    → v ≤ b
    → b + 35 * v < 2 ^ 31
    → Leaves n b bet v w
unfolding payment_of payment
leaves n b v m bet true e f low high =
    let small = multiplier-le bet.type f in
    let bound : v * m ≤ v * 35 = grind arith in
    (
      wrap32 (pos v *ℤ pos m),
      b + v * m,
      rw (f, payment_of) (rw e),
      step_won b v m (omega arith),
      omega arith,
      omega arith,
    )
leaves n b v m bet false e f low high = (
  wrap32 (pos 0 -ℤ pos v),
  b - v,
  rw (e, payment_of),
  step_lost b v low (omega arith),
  omega arith,
  omega arith,
)

-- Whatever is drawn, bets that the balance covers are settled, and leave at least what they do
-- not stake, and at most 35 times the stakes more.
pub settle_solvent :
    (n b : ℕ) (bets : List Bet)
    → n < max_number
    → All IsStake bets
    → stakes bets ≤ b
    → b + 35 * stakes bets < 2 ^ 31
    → (b' : ℕ) × (settle n bets (pos b) ≡ some (pos b'))
      × (b ≤ b' + stakes bets)
      × (b' ≤ b + 35 * stakes bets)
unfolding settle
settle_solvent n b [] h k low high = (b, refl, omega arith, omega arith)
settle_solvent n b (bet ∷ bets) h (stake, more) low high =
    let ((m, f), wins) = accepted_settles bet stake.number stake.valid in
    let (w, won) = wins n h in
    let (value, b₁, paid, left, lower, upper) =
      leaves n b (pos_part bet.value) m bet w stake.amount f (omega arith) (omega arith) in
    let (b', rest, lower', upper') = settle_solvent n b₁ bets h more (omega arith) (omega arith) in
    (
      b',
      settle-cons n bet bets (pos b) w value won paid ∙ ap (settle n bets) left ∙ rest,
      omega arith,
      omega arith,
    )

pub staked-pos :
    (a : ℕ) (bets : List Bet)
    → All IsStake bets
    → a + stakes bets < 2 ^ 31
    → staked (pos a) bets ≡ pos (a + stakes bets)
unfolding staked
staked-pos a [] h k = ground arith
staked-pos a (b ∷ bets) (stake, more) k =
    let sum : wrap32 (pos a +ℤ b.value) ≡ pos (a + pos_part b.value) =
      wrap_add a (pos_part b.value) b.value stake.amount (omega arith) in
    rw sum (staked-pos (a + pos_part b.value) bets more (omega arith) ∙ ap pos (omega arith))

pub stakes-append : (xs ys : List Bet) → stakes (xs ++ ys) ≡ stakes xs + stakes ys
stakes-append [] ys = omega arith
stakes-append (x ∷ xs) ys = omega (arith, stakes-append xs ys)

pub All-append {ℓ κ} :
    {A : Type ℓ} (P : A → Type κ) (xs ys : List A) → All P (xs ++ ys) → All P xs × All P ys
All-append P [] ys h = (tt, h)
All-append P (x ∷ xs) ys (p, h) = let (l, r) = All-append P xs ys h in ((p, l), r)
