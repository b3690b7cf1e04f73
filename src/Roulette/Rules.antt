-- ===== src/Roulette/Rules.antt =====
-- `Server::validate` and `Server::wining` (src/core/Server.cpp). The number drawn is `rand() % 37`,
-- which is not negative; the number of a bet is any `int` that the client sent.
use Prim.Native.Nat.{bit_and}
use asinc_roulette.Base.{
  ℕ, ◌+◌, ◌*◌, ◌/◌, ◌%◌, ◌==◌, Bool, true, false, not, ◌&&◌, ◌||◌, Option, none, some, ltb, leb,
  contains, List, nat_eq, string_eq, get_elem?, if◌then◌else◌,
}
use asinc_roulette.Base.Int.{ℤ, pos, negsuc, ◌+ℤ◌, ◌-ℤ◌, leb_ℤ, rem_ℤ, wrap32, int_eq}
use asinc_roulette.Base.Map.{lookup}
use asinc_roulette.Failure.{
  Result, ok, err, illegal_bet_type, illegal_bet_number, undefined_bet_type, undefined_behaviour,
}
use asinc_roulette.Roulette.Bets.{Bet, ranges, reds, corners}

-- `std::get<0>(range) <= norm_number && norm_number <= std::get<1>(range)`
abbrev pub in_range : ℕ × ℕ → ℤ → Bool
in_range (lo, hi) number =
    let norm_number = wrap32 (number +ℤ pos 1) in
    leb_ℤ (pos lo) norm_number && leb_ℤ norm_number (pos hi)

unfoldable pub validate : Bet → Result Unit
unfolding ◌+ℤ◌ wrap32
validate bet = elim (lookup bet.type ranges) [
  | none ↦ err (illegal_bet_type bet.type)
  | some range ↦ if in_range range bet.number then ok tt else err illegal_bet_number
]

abbrev pub is_zero : ℕ → Bool
is_zero random_number = random_number == 0 || random_number == 37

-- `bets::corners[number]`, whose index is not checked.
abbrev pub corner_at : ℤ → Option (List ℕ)
corner_at (pos n) = get_elem? corners n
corner_at (negsuc _) = none

abbrev pub hsplit_wins : ℕ → ℤ → Bool
hsplit_wins random_number number =
    let line = random_number / 3 * 2 in
    let position = random_number % 3 in
    if is_zero random_number
    then false
    else if not (pos line == number) && not (pos (line + 1) == number)
    then false
    else if rem_ℤ number 2 == pos 0 && (position == 0 || position == 1)
    then true
    else rem_ℤ number 2 == pos 1 && (position == 1 || position == 2)

unfoldable pub wining : ℕ → Bet → Result Bool
unfolding ◌-ℤ◌ contains
wining random_number bet =
    let number = bet.number in
    let is_red = contains random_number reds in
    let is_zero' = is_zero random_number in
    if bet.type == "red"
    then ok is_red
    else if bet.type == "black"
    then ok (not is_red && not is_zero')
    else if bet.type == "even"
    then ok (bit_and random_number 1 == 0)
    else if bet.type == "odd"
    then ok (not (bit_and random_number 1 == 0))
    else if bet.type == "low"
    then ok (ltb random_number 19)
    else if bet.type == "high"
    then ok (ltb 18 random_number)
    else if bet.type == "zero"
    then ok is_zero'
    else if bet.type == "basket"
    then ok (leb 0 random_number && leb random_number 3 || random_number == 37)
    else if bet.type == "column"
    then ok (pos (random_number % 12) == number && not is_zero')
    else if bet.type == "dozen"
    then ok (pos (random_number % 3) == number && not is_zero')
    else if bet.type == "line"
    then ok (pos (random_number % 6) == number && not is_zero')
    else if bet.type == "street"
    then ok (pos (random_number % 3) == number && not is_zero')
    else if bet.type == "corner"
    then elim (corner_at number) [
      | none ↦ err undefined_behaviour
      | some numbers ↦ ok (contains random_number numbers)
    ]
    else if bet.type == "hsplit"
    then ok (hsplit_wins random_number number)
    else if bet.type == "vsplit"
    then ok ((pos random_number == number || pos random_number -ℤ pos 3 == number) && not is_zero')
    else if bet.type == "straight"
    then ok (number == pos random_number)
    else err (undefined_bet_type bet.type)
