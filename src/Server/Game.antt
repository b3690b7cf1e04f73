-- ===== src/Server/Game.antt =====
-- Bets, the spin and the payments (src/core/Server.cpp: `do_balance`, `do_bet`, `do_bets`,
-- `do_spin`, `pay`). Money is an `int`: its arithmetic is taken modulo 2^32.
use asinc_roulette.Base.{
  ℕ, ◌%◌, String, Bool, true, false, List, [], ◌∷◌, ◌++◌, map, Option, none, some, string_eq,
  nat_eq,
}
use mathlib.Core.List.{flat_map}
use asinc_roulette.Base.Int.{ℤ, pos, ◌+ℤ◌, ◌-ℤ◌, ◌*ℤ◌, ltb_ℤ, wrap32}
use asinc_roulette.Base.Map.{Map, lookup, insert}
use asinc_roulette.Failure.{undefined_behaviour, not_enough_money}
use asinc_roulette.Roulette.Bets.{Bet, multipliers, max_number}
use asinc_roulette.Roulette.Rules.{validate, wining}
use asinc_roulette.Storage.{Sqlite, set_user_balance}
use asinc_roulette.Server.State.{
  Table, Action, Content, lift, gets, or_throw, throw_if, modify, succeed, for_each, ◌>>=◌, ◌>>◌,
}
use asinc_roulette.Server.Users.{get_user, get_id}
use asinc_roulette.Server.Seating.{get_session, set_session}

-- `value` after the loop over the bets in `do_bet`, which starts at `acc`.
unfoldable pub staked : ℤ → List Bet → ℤ
staked acc [] = acc
staked acc (b ∷ bets) = staked (wrap32 (acc +ℤ b.value)) bets

abbrev pub bets_of : String → Table → List Bet
bets_of login session = elim (lookup login session.bets) [ none ↦ [] | some bets ↦ bets ]

module _ {D : Type 0} where
  unfoldable pub do_balance : ℕ → Action D Unit
  unfolding get_user
  do_balance id = do user ← get_user id; succeed id "balance" (Content.balance user.balance)

  unfoldable pub do_bet : ℕ → Bet → Action D Unit
  unfolding get_session get_user set_session
  do_bet id bet = do
    lift (validate bet)
    (key, session) ← get_session id
    user ← get_user id
    let bets = bets_of user.login session
    throw_if (ltb_ℤ user.balance (wrap32 (staked (pos 0) bets +ℤ bet.value))) not_enough_money
    set_session key (record session { bets = insert user.login (bets ++ bet ∷ []) session.bets })
    succeed id "bet" Content.empty

  unfoldable pub do_bets : ℕ → Action D Unit
  unfolding get_session
  do_bets id = do
    (key, session) ← get_session id
    succeed id "bets" (
        Content.bet_list
          (flat_map (λ (en : String × List Bet). map (λ bet. (en.0, bet)) en.1) session.bets))

-- What `pay` adds to the balance.
unfoldable pub payment : Bool → ℕ → Bet → ℤ
payment true multiplier bet = wrap32 (bet.value *ℤ pos multiplier)
payment false multiplier bet = wrap32 (pos 0 -ℤ bet.value)

-- A bet of no known type that wins has no multiplier; one that loses needs none.
unfoldable pub payment_of : Bool → Bet → Option ℤ
unfolding payment
payment_of true bet = elim (lookup bet.type multipliers) [
  | none ↦ none
  | some multiplier ↦ some (payment true multiplier bet)
]
payment_of false bet = some (payment false 0 bet)

-- `session.bets.clear()` on the table under a key.
unfoldable pub clear_bets : String → Map String Table → Map String Table
clear_bets key sessions = elim (lookup key sessions) [
  | none ↦ sessions
  | some session ↦ insert key (record session { bets = [] }) sessions
]

module _ {D : Type 0} ⦃sql : Sqlite D⦄ where
  unfoldable pub pay : ℕ → Bet → Bool → Action D Unit
  unfolding get_user set_user_balance payment_of
  pay id bet is_positive = do
    value ← or_throw (payment_of is_positive bet) undefined_behaviour
    user ← get_user id
    let balance = wrap32 (user.balance +ℤ value)
    modify λ s. record s { users = insert id (record user { balance = balance }) s.users }
    data_base ← lift (← gets (λ s. set_user_balance s.data_base user.login balance))
    modify λ s. record s { data_base = data_base }
    succeed id "pay" (Content.payment bet value)

  unfoldable pub pay_player : ℕ → String × List Bet → Action D Unit
  unfolding pay get_id for_each
  pay_player random_number (login, bets) = do
    user_id ← get_id login
    for_each bets
        λ bet. do is_positive ← lift (wining random_number bet); pay user_id bet is_positive

  -- The first argument is what `std::rand()` returned.
  unfoldable pub do_spin : ℕ → ℕ → Action D Unit
  unfolding get_session get_id pay_player for_each
  do_spin rand id = do
    (key, session) ← get_session id
    let random_number = rand % max_number
    for_each session.users
        λ login. do succeed (← get_id login) "spin" (Content.random_number random_number)
    for_each session.bets (pay_player random_number)
    modify λ s. record s { sessions = clear_bets key s.sessions }
