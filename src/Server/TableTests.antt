-- ===== src/Server/TableTests.antt =====
-- The theorems about joining, leaving and writing at a concrete table.
use asinc_roulette.Base.{◌≡◌, refl, [], ◌∷◌, none, some, nat_eq, string_eq, contains}
use asinc_roulette.Base.Int.{pos}
use asinc_roulette.Base.Map.{lookup, insert}
use asinc_roulette.Failure.{ok}
use asinc_roulette.Permissions
use asinc_roulette.Storage.{User, get_user_permission}
use asinc_roulette.Storage.Example.{Rows, rows}
use asinc_roulette.Server.State.{Server, Table, Link, send, for_each, ◌>>=◌}
use asinc_roulette.Server.Users.{get_user, get_login, get_id, add_user, local_set_user_permission}
use asinc_roulette.Server.Seating.{
  get_session, set_session, leave_player, leave_croupier, back_to_hall,
}
use asinc_roulette.Server.Requests.{do_write, do_join, do_leave}
use asinc_roulette.Server.Writing.{note, do_write-notes}
use asinc_roulette.Server.Leaving.{leave_croupier-closes}
use asinc_roulette.Server.Visiting.{do_join-do_leave}

abbrev bob : User
bob = record { login = "bob"; password = "pw"; permission = Permissions.player; balance = pos 100 }

abbrev ann : User
ann = record { login = "ann"; password = "pw"; permission = Permissions.croupier; balance = pos 0 }

abbrev guest_bob : User
guest_bob = record bob { permission = Permissions.user }

abbrev table : Table
table = record {
  name = "t";
  password = "pw";
  croupier = "ann";
  users = "ann" ∷ "bob" ∷ [];
  max_players = 5;
  bets = [];
}

-- Ann and Bob at the table.
abbrev at_table : Server Rows
at_table = record {
  data_base = ("ann", ann) ∷ ("bob", guest_bob) ∷ [];
  id2name = (4, "t") ∷ (3, "t") ∷ [];
  login2id = ("ann", 4) ∷ ("bob", 3) ∷ [];
  users = (4, ann) ∷ (3, bob) ∷ [];
  sessions = ("t", table) ∷ [];
  clients = 3 ∷ 4 ∷ [];
  links = λ _. Link.up;
  outbox = [];
}

abbrev free_table : Table
free_table = record table { users = "ann" ∷ [] }

-- Ann alone at the table, and Bob in the hall.
abbrev in_hall : Server Rows
in_hall = record at_table {
  id2name = (4, "t") ∷ [];
  users = (4, ann) ∷ (3, guest_bob) ∷ [];
  sessions = ("t", free_table) ∷ [];
}

do_write-notes_example :
    do_write 3 "hi" at_table ≡ (ok tt, record at_table { outbox = note "bob" "hi" 4 ∷ [] })
unfolding lookup contains
do_write-notes_example = do_write-notes 3 "hi" "t" table bob at_table refl refl refl (
  record { id = 4; known = refl; client = refl; link = refl },
  (record { id = 3; known = refl; client = refl; link = refl }, tt),
)

leave_croupier-closes_example : lookup "t" (leave_croupier 4 at_table).1.sessions ≡ none
unfolding lookup get_session leave_croupier leave_player get_login get_id get_user set_session
    back_to_hall local_set_user_permission add_user insert send for_each ◌>>=◌
leave_croupier-closes_example = leave_croupier-closes 4 "t" table at_table refl refl

do_join-do_leave_example :
    let sat = do_join 3 "t" "pw" in_hall in
    let left = do_leave 3 sat.1 in
    (sat.0 ≡ ok tt)
    × (left.0 ≡ ok tt)
    × (lookup "t" left.1.sessions ≡ some free_table)
    × (lookup 3 left.1.users ≡ some guest_bob)
unfolding lookup contains get_user_permission
do_join-do_leave_example =
    do_join-do_leave 3 "t" free_table guest_bob Permissions.user in_hall "t"
      (record {
        there = refl;
        free = refl;
        known = refl;
        croupier = refl;
        newcomer = refl;
        betless = refl;
        client = refl;
        link = refl;
      })
      refl
