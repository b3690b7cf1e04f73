-- ===== src/Server/Tests.antt =====
-- The theorems about the server at concrete tables, users and bets.
use asinc_roulette.Base.{
  ℕ, ◌+◌, ◌*◌, ◌≤◌, arith, ◌≡◌, refl, List, [], ◌∷◌, some, nat_eq, string_eq, inr,
}
use asinc_roulette.Base.Int.{pos, negsuc, wrap32, ◌+ℤ◌, ◌*ℤ◌}
use asinc_roulette.Base.Map.{lookup, insert}
use asinc_roulette.Failure.{err, not_enough_money, already_logged_in}
use asinc_roulette.Json.Example.{Toy, toy}
use asinc_roulette.Permissions
use asinc_roulette.Roulette.Bets.{Bet}
use asinc_roulette.Roulette.Rules.{validate, wining}
use asinc_roulette.Storage.{User}
use asinc_roulette.Storage.Example.{Rows, rows, rows-IsTable}
use asinc_roulette.Server.State.{Server, Table, Link, send, ◌>>=◌}
use asinc_roulette.Server.Soundness.{IsSound}
use asinc_roulette.Server.Requests.{do_signin, do_signout}
use asinc_roulette.Server.Signing.{signed_out_blocked}
use asinc_roulette.Server.Game.{do_bet, bets_of, pay_player, payment_of, payment, staked}
use asinc_roulette.Server.Money.{settle, do_bet_refused}
use asinc_roulette.Server.Solvency.{IsStake, settle_solvent}
use asinc_roulette.Server.Accepted.{accepted_bets_solvent, negative_bet_profits}
use asinc_roulette.Server.Payout.{Paid, pay_player_settles, Updates}
use asinc_roulette.Server.Run.{Event, start, run, started-IsSound}

abbrev bob : User
bob = record { login = "bob"; password = "pw"; permission = Permissions.player; balance = pos 100 }

abbrev on_red : Bet
on_red = record { type = "red"; number = pos 0; value = pos 10 }

abbrev on_seven : Bet
on_seven = record { type = "straight"; number = pos 7; value = pos 5 }

abbrev on_all : Bet
on_all = record { type = "red"; number = pos 0; value = pos 95 }

abbrev minus_ten : Bet
minus_ten = record { type = "red"; number = pos 0; value = negsuc 9 }

abbrev table : Table
table = record {
  name = "t";
  password = "pw";
  croupier = "ann";
  users = "ann" ∷ "bob" ∷ [];
  max_players = 5;
  bets = ("bob", on_red ∷ []) ∷ [];
}

abbrev empty_table : Table
empty_table = record table { bets = [] }

abbrev seated : Server Rows
seated = record {
  data_base = ("bob", bob) ∷ [];
  id2name = (3, "t") ∷ [];
  login2id = ("bob", 3) ∷ [];
  users = (3, bob) ∷ [];
  sessions = ("t", table) ∷ [];
  clients = 3 ∷ [];
  links = λ _. Link.up;
  outbox = [];
}

abbrev requests : List Event
requests =
    Event.connected 3
    ∷ Event.message 0 3 "signup bob"
    ∷ Event.connected 4
    ∷ Event.message 0 4 "create t"
    ∷ Event.disconnected 3
    ∷ []

started-IsSound_example : IsSound (run Toy requests (start {D = Rows} [] (λ _. Link.up)))
started-IsSound_example = started-IsSound Rows Toy [] (λ _. Link.up) requests

red-IsStake : IsStake on_red
unfolding validate lookup
red-IsStake = record { number = (omega arith, omega arith); valid = refl; amount = refl }

seven-IsStake : IsStake on_seven
unfolding validate lookup
seven-IsStake = record { number = (omega arith, omega arith); valid = refl; amount = refl }

rows_updates : Updates rows
rows_updates d b login = (_, refl)

paid_examples : settle 7 (on_red ∷ on_seven ∷ []) (pos 100) ≡ some (pos 285)
unfolding settle payment_of payment wining lookup wrap32 ◌+ℤ◌ ◌*ℤ◌
paid_examples = refl

settle_solvent_example :
    (b' : ℕ) × (settle 7 (on_red ∷ on_seven ∷ []) (pos 100) ≡ some (pos b'))
    × (100 ≤ b' + 15)
    × (b' ≤ 100 + 35 * 15)
settle_solvent_example =
    settle_solvent 7 100 (on_red ∷ on_seven ∷ []) (omega arith) (red-IsStake, (seven-IsStake, tt))
      (omega arith) (omega arith)

-- After the bet on seven; the state `seated` but for its table.
abbrev both_table : Table
both_table = record table { bets = ("bob", on_red ∷ on_seven ∷ []) ∷ [] }

abbrev both_seated : Server Rows
both_seated = record seated { sessions = ("t", both_table) ∷ [] }

accepted_bets_solvent_example :
    (b' : ℕ) × Paid ⦃sql = rows⦄ rows-IsTable rows_updates 3 bob bob
      (pos b')
      both_seated
      (pay_player 7 ("bob", on_red ∷ on_seven ∷ []) both_seated)
unfolding do_bet ◌>>=◌ send validate lookup insert staked wrap32 ◌+ℤ◌
accepted_bets_solvent_example =
    accepted_bets_solvent rows-IsTable rows_updates 3 on_seven seated "t" table bob refl refl refl
      both_seated bob refl (inr refl) refl refl refl 7 100 both_table refl refl refl (omega arith)
      (red-IsStake, (seven-IsStake, tt)) (omega arith)

abbrev unset : Server Rows
unset = record seated { sessions = ("t", empty_table) ∷ [] }

negative_bet_profits_example :
    (t' : Table) × (lookup "t" (do_bet 3 minus_ten unset).1.sessions ≡ some t')
    × (bets_of "bob" t' ≡ minus_ten ∷ [])
    × Paid ⦃sql = rows⦄ rows-IsTable rows_updates 3 bob bob
        (pos (100 + 10))
        unset
        (pay_player 0 ("bob", bets_of "bob" t') unset)
unfolding validate lookup wining
negative_bet_profits_example =
    negative_bet_profits rows-IsTable rows_updates 3 minus_ten unset "t" empty_table bob refl refl
      refl unset bob refl (inr refl) refl refl refl 0 100 9 refl refl refl refl (omega arith) refl

do_bet_refused_example : do_bet 3 on_all seated ≡ (err not_enough_money, seated)
unfolding validate lookup staked wrap32 ◌+ℤ◌
do_bet_refused_example =
    do_bet_refused 3 on_all seated "t" table bob refl refl refl not_enough_money refl

pay_player_settles_example :
    Paid ⦃sql = rows⦄ rows-IsTable rows_updates 3 bob bob
      (pos 110)
      seated
      (pay_player 7 ("bob", on_red ∷ []) seated)
unfolding lookup settle payment_of payment wining wrap32 ◌+ℤ◌ ◌*ℤ◌
pay_player_settles_example =
    pay_player_settles rows-IsTable rows_updates 7 3 "bob" (on_red ∷ []) bob bob seated (pos 110)
      refl (inr refl) refl refl refl refl

signed_out_blocked_example :
    do_signin 4 "bob" "pw" (do_signout 3 seated).1
    ≡ (err (already_logged_in "bob"), (do_signout 3 seated).1)
unfolding lookup
signed_out_blocked_example = signed_out_blocked 3 4 3 "bob" "pw" seated refl
