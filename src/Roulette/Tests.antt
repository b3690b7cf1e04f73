-- ===== src/Roulette/Tests.antt =====
-- The theorems about the rules at concrete bets.
use asinc_roulette.Base.{
  ℕ, ◌<◌, ◌==◌, nat_eq, string_eq, arith, ◌≡◌, refl, Bool, false, not, ◌&&◌, some, ltb,
}
use asinc_roulette.Base.Int.{pos}
use asinc_roulette.Base.Map.{lookup}
use asinc_roulette.Failure.{ok}
use asinc_roulette.Roulette.Bets.{Bet, ranges, multipliers, max_number}
use asinc_roulette.Roulette.Rules.{validate, wining}
use asinc_roulette.Roulette.Odds.{
  bet_on, wins, outside_bets, winning_numbers, returned, is_favourable, is_hopeless,
  accepted-number, accepted_settles, favourable_iff, hopeless_iff,
}

abbrev on_even : Bet
on_even = bet_on "even" 0 (pos 10)

abbrev on_line : Bet
on_line = bet_on "line" 7 (pos 10)

abbrev on_corner : Bet
on_corner = bet_on "corner" 21 (pos 3)

accepted-number_example :
    (hi : ℕ) × (n : ℕ) × (lookup "corner" ranges ≡ some (1, hi)) × (pos 21 ≡ pos n) × (n < hi)
unfolding validate lookup
accepted-number_example = accepted-number on_corner (omega arith, omega arith) refl

accepted_settles_example :
    ((k : ℕ) × (lookup "corner" multipliers ≡ some k))
    × ((r : ℕ) → r < max_number → (w : Bool) × (wining r on_corner ≡ ok w))
unfolding validate lookup
accepted_settles_example = accepted_settles on_corner (omega arith, omega arith) refl

favourable_iff_example : ltb max_number (returned on_even) ≡ is_favourable on_even
unfolding validate lookup
favourable_iff_example = favourable_iff on_even (omega arith, omega arith) refl

hopeless_iff_example : (winning_numbers max_number on_line == 0) ≡ is_hopeless on_line
unfolding validate lookup
hopeless_iff_example = hopeless_iff on_line (omega arith, omega arith) refl

abbrev drawn : ℕ
drawn = 0

outside_bets_example :
    (wins 0 (bet_on "zero" 0 (pos 1)) ≡ (drawn == 0))
    × (wins 0 (bet_on "black" 0 (pos 1))
        ≡ (not (wins 0 (bet_on "red" 0 (pos 1))) && not (drawn == 0)))
    × ((wins 0 (bet_on "red" 0 (pos 1)) && drawn == 0) ≡ false)
    × (wins 0 (bet_on "odd" 0 (pos 1)) ≡ not (wins 0 (bet_on "even" 0 (pos 1))))
    × (wins 0 (bet_on "high" 0 (pos 1)) ≡ not (wins 0 (bet_on "low" 0 (pos 1))))
outside_bets_example = outside_bets (pos 1) 0 (omega arith)
