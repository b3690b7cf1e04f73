-- ===== src/Roulette/Odds.antt =====
-- What an accepted bet can win: proofs over all bet types, all their numbers and the whole wheel,
-- by evaluating the tables of src/core/config.h and the rules of src/core/Server.cpp.
use asinc_roulette.Base.{
  ℕ, zero, suc, ◌*◌, ◌<◌, ◌≤◌, String, ◌≡◌, refl, inl, inr, Bool, true, false, not, ◌&&◌, ◌||◌,
  Option, none, some, arith, ltb, leb, ◌==◌, nat_eq, string_eq, all, all_below, all_below_sound,
  Option-cases, same, same→≡, subst, sym, if◌then◌else◌,
}
use asinc_roulette.Base.Int.{ℤ, pos, negsuc, IsInt, leb_ℤ, ltb_ℤ, wrap32, ◌+ℤ◌}
use asinc_roulette.Base.Map.{lookup, member, all-lookup}
use asinc_roulette.Failure.{Error, Result, ok, err}
use asinc_roulette.Roulette.Bets.{Bet, ranges, multipliers, max_number}
use asinc_roulette.Roulette.Rules.{validate, wining, in_range}

abbrev pub bet_on : String → ℕ → ℤ → Bet
bet_on t n v = record { type = t; number = pos n; value = v }

abbrev pub wins : ℕ → Bet → Bool
wins random_number bet = elim (wining random_number bet) [ ok b ↦ b | err _ ↦ false ]

-- On how many of the first `n` numbers of the wheel the bet wins.
pub winning_numbers : ℕ → Bet → ℕ
winning_numbers zero bet = 0
winning_numbers (suc n) bet =
    let rest = winning_numbers n bet in if wins n bet then suc rest else rest

-- One unit on each number of the wheel brings back `1 + multiplier` for each win.
abbrev pub returned : Bet → ℕ
returned bet = elim (lookup bet.type multipliers) [
  | none ↦ 0
  | some multiplier ↦ suc multiplier * winning_numbers max_number bet
]

ranges_start : all (λ (e : String × (ℕ × ℕ)). e.1.0 == 1 && leb e.1.1 36) ranges ≡ true
ranges_start = refl

pub in_range-pos :
    (lo hi : ℕ) (number : ℤ)
    → lo ≡ 1
    → hi ≤ 36
    → IsInt number
    → in_range (lo, hi) number ≡ true
    → (n : ℕ) × (number ≡ pos n) × (n < hi)
unfolding ◌+ℤ◌ wrap32
in_range-pos lo hi (pos n) l h i e = (n, refl, ground arith)
in_range-pos lo hi (negsuc n) l h i e = absurd (ground arith)

passed : (c : Bool) (e : Error) → (if c then ok tt else err e) ≡ ok (tt {0}) → c ≡ true
passed c e h = ground arith

pub accepted-number :
    (b : Bet)
    → IsInt b.number
    → validate b ≡ ok tt
    → (hi : ℕ) × (n : ℕ) × (lookup b.type ranges ≡ some (1, hi)) × (b.number ≡ pos n) × (n < hi)
unfolding validate
accepted-number b i e = elim (Option-cases (lookup b.type ranges)) [
  | inl missing ↦ absurd (ground arith)
  | inr ((lo, hi), found) ↦
      let start : (lo == 1 && leb hi 36) ≡ true =
        all-lookup (λ (en : String × (ℕ × ℕ)). en.1.0 == 1 && leb en.1.1 36) b.type ranges
          ranges_start found in
      let one : lo ≡ 1 = ground arith in
      let (n, p, q) =
        in_range-pos lo hi b.number one (ground arith) i (passed _ _ (rw (found, validate) at e)) in
      (hi, n, rw one at found, p, q)
]

-- A test that passes for every type and every number of its range passes for an accepted bet.
module _ (test : Bet → Bool) where
  abbrev passes_all : ℤ → Bool
  passes_all v =
      all (λ (en : String × (ℕ × ℕ)). all_below en.1.1 (λ n. test (bet_on en.0 n v))) ranges

  pub accepted-test :
      (b : Bet) → passes_all b.value ≡ true → IsInt b.number → validate b ≡ ok tt → test b ≡ true
  accepted-test b checked i e =
      let (hi, n, found, number, below) = accepted-number b i e in
      let here =
        all-lookup (λ (en : String × (ℕ × ℕ)). all_below en.1.1 (λ n. test (bet_on en.0 n b.value)))
          b.type ranges checked found in
      subst (λ (k : ℤ). test (record { type = b.type; number = k; value = b.value }) ≡ true)
        (sym number) (all_below_sound hi (λ n. test (bet_on b.type n b.value)) n here below)

settles : Bet → Bool
settles b =
    all_below max_number (λ r. elim (wining r b) [ ok _ ↦ true | err _ ↦ false ])
    && member b.type multipliers

all_settle : (v : ℤ) → passes_all settles v ≡ true
unfolding settles wining lookup
all_settle v = refl

ok_of_test :
    (r : Result Bool) → elim r [ ok _ ↦ true | err _ ↦ false ] ≡ true → (w : Bool) × (r ≡ ok w)
ok_of_test (ok w) h = (w, refl)
ok_of_test (err e) h = cc

some_of_test :
    (o : Option ℕ) → elim o [ none ↦ false | some _ ↦ true ] ≡ true → (k : ℕ) × (o ≡ some k)
some_of_test none h = cc
some_of_test (some k) h = (k, refl)

-- A bet that `validate` accepts has a multiplier, and whatever number of the wheel is drawn,
-- `wining` answers for it: no exception, and no read past the end of `corners`.
pub accepted_settles :
    (b : Bet)
    → IsInt b.number
    → validate b ≡ ok tt
    → ((k : ℕ) × (lookup b.type multipliers ≡ some k))
      × ((r : ℕ) → r < max_number → (w : Bool) × (wining r b ≡ ok w))
unfolding settles
accepted_settles b i e =
    let checked : settles b ≡ true = accepted-test settles b (all_settle b.value) i e in
    (
      some_of_test (lookup b.type multipliers) (ground arith),
      λ r h. ok_of_test (wining r b) (
          all_below_sound max_number (λ r. elim (wining r b) [ ok _ ↦ true | err _ ↦ false ]) r
            (ground arith) h),
    )

abbrev pub is_favourable : Bet → Bool
is_favourable b =
    b.type == "even" || b.type == "low" || b.type == "street" && leb_ℤ b.number (pos 2)

favours : Bet → Bool
favours b = same (ltb max_number (returned b)) (is_favourable b)

all_favour : (v : ℤ) → passes_all favours v ≡ true
unfolding favours winning_numbers wining lookup
all_favour v = refl

-- Over one turn of the whole wheel an accepted bet brings back more units than it stakes exactly
-- if it is on `even`, on `low`, or on one of the first three numbers of `street`.
pub favourable_iff :
    (b : Bet) → IsInt b.number → validate b ≡ ok tt → ltb max_number (returned b) ≡ is_favourable b
unfolding favours
favourable_iff b i e =
    same→≡ (ltb max_number (returned b)) (is_favourable b)
      (accepted-test favours b (all_favour b.value) i e)

abbrev pub is_hopeless : Bet → Bool
is_hopeless b =
    b.type == "line" && ltb_ℤ (pos 5) b.number || b.type == "street" && ltb_ℤ (pos 2) b.number

hopes : Bet → Bool
hopes b = same (winning_numbers max_number b == 0) (is_hopeless b)

all_hope : (v : ℤ) → passes_all hopes v ≡ true
unfolding hopes winning_numbers wining
all_hope v = refl

-- An accepted bet wins on no number of the wheel exactly if it is on a `line` from 6 upwards
-- or on a `street` from 3 upwards.
pub hopeless_iff :
    (b : Bet)
    → IsInt b.number
    → validate b ≡ ok tt
    → (winning_numbers max_number b == 0) ≡ is_hopeless b
unfolding hopes
hopeless_iff b i e =
    same→≡ (winning_numbers max_number b == 0) (is_hopeless b)
      (accepted-test hopes b (all_hope b.value) i e)

splits_wheel : ℤ → ℕ → Bool
splits_wheel v r =
    same (wins r (bet_on "zero" 0 v)) (r == 0)
    && same (wins r (bet_on "black" 0 v)) (not (wins r (bet_on "red" 0 v)) && not (r == 0))
    && not (wins r (bet_on "red" 0 v) && r == 0)
    && same (wins r (bet_on "odd" 0 v)) (not (wins r (bet_on "even" 0 v)))
    && same (wins r (bet_on "high" 0 v)) (not (wins r (bet_on "low" 0 v)))

all_split : (v : ℤ) → all_below max_number (splits_wheel v) ≡ true
unfolding splits_wheel wining
all_split v = refl

-- Whatever number of the wheel is drawn: `zero` wins on 0 alone, exactly one of `red`, `black`
-- and `zero` wins, exactly one of `even` and `odd`, and exactly one of `low` and `high`.
pub outside_bets :
    (v : ℤ) (r : ℕ)
    → r < max_number
    → (wins r (bet_on "zero" 0 v) ≡ (r == 0))
      × (wins r (bet_on "black" 0 v) ≡ (not (wins r (bet_on "red" 0 v)) && not (r == 0)))
      × ((wins r (bet_on "red" 0 v) && r == 0) ≡ false)
      × (wins r (bet_on "odd" 0 v) ≡ not (wins r (bet_on "even" 0 v)))
      × (wins r (bet_on "high" 0 v) ≡ not (wins r (bet_on "low" 0 v)))
unfolding splits_wheel
outside_bets v r h =
    let checked = all_below_sound max_number (splits_wheel v) r (all_split v) h in ground arith
