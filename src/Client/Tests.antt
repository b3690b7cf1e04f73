-- ===== src/Client/Tests.antt =====
-- The theorems about the client at concrete lines.
use asinc_roulette.Base.{◌||◌, ◌≡◌, refl, true, [], ◌∷◌}
use asinc_roulette.Base.Int.{pos}
use asinc_roulette.Json.Example.{Toy, toy}
use asinc_roulette.Permissions
use asinc_roulette.Storage.Example.{Rows, rows}
use asinc_roulette.Client.Words.{
  codes, parse, trim_copy, ltrim, rtrim, parse_loop, parse_step, stoi, str2int,
}
use asinc_roulette.Server.State.{Answer, Content}
use asinc_roulette.Client.Answers.{Client, session_input}
use asinc_roulette.Client.Tracking.{session_input-known}
use asinc_roulette.Client.Requests
use asinc_roulette.Client.Commands.{
  Info, Outcome, sends, find_command, parse_and_execute, execute, bet,
}
use asinc_roulette.Client.Agreement.{served, is_local, every_command_known}

abbrev bet_info : Info
bet_info = record {
  permission = 16;
  name = "bet";
  argument_description = "type number value";
  description = "make bet";
}

two_words : parse (codes "  join 'my table' ") ≡ codes "join" ∷ codes "my table" ∷ []
unfolding parse trim_copy ltrim rtrim parse_loop parse_step
two_words = refl

a_bet :
    parse_and_execute Permissions.player (codes "bet red 0 10")
    ≡ sends (Requests.bet (codes "red") (pos 0) (pos 10))
unfolding parse_and_execute parse trim_copy ltrim rtrim parse_loop parse_step execute find_command
    bet str2int stoi
a_bet = refl

no_negative_bet :
    parse_and_execute Permissions.player (codes "bet red 0 -10")
    ≡ Outcome.refused "bet value parse error"
unfolding parse_and_execute parse trim_copy ltrim rtrim parse_loop parse_step execute find_command
    bet str2int stoi
no_negative_bet = refl

every_command_known_example : (is_local "bet" || served Rows Toy "bet" 16) ≡ true
unfolding find_command
every_command_known_example = every_command_known Rows Toy (codes "bet") bet_info bet refl

abbrev at_table : Answer
at_table = record { to = 3; status = "success"; command = "join"; content = Content.permission 16 }

abbrev signed_in : Client
signed_in = record { permission = Permissions.user; printed = [] }

session_input-known_example : (session_input at_table signed_in).1.permission ≡ 16
session_input-known_example = session_input-known at_table signed_in refl
