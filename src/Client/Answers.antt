-- ===== src/Client/Answers.antt =====
-- What an answer of the server does to the client (src/handlers/ClientHandlers.cpp,
-- `Client::session_input` of src/core/Client.cpp). An answer stands as what the server put in; that
-- the JSON library reads what it printed is taken for granted, and a member that an answer does not
-- have is an exception of that library, which nobody catches; what was printed before it is left out.
use asinc_roulette.Base.{
  ℕ, String, Bool, true, false, List, [], ◌∷◌, ◌++◌, Option, none, some, ◌==◌, nat_eq, string_eq,
  if◌then◌else◌,
}
use asinc_roulette.Failure.{Error, Result, ok, err, json_error}
use asinc_roulette.Handlers.{Handlers, select}
use asinc_roulette.Permissions
use asinc_roulette.Permissions.{allows}
use asinc_roulette.Server.State.{Answer, Content}

-- What the client prints.
pub data Printed : Type 0 where
  notice : String → Printed
  listing : Content → Printed
  report : String → Error → Printed
  trouble : Error → Printed

pub record Client : Type 0 where
  pub permission : ℕ
  pub printed : List Printed

abbrev pub Reply : Type 0
Reply = Result Unit × Client

abbrev show : Printed → Client → Reply
show p c = (ok tt, record c { printed = c.printed ++ p ∷ [] })

abbrev pub ClientHandler : Type 0
ClientHandler = Content → Client → Reply

abbrev pub permission_of : Content → Option ℕ
permission_of (Content.permission permission) = some permission
permission_of _ = none

abbrev pub message_of : Content → Option Error
message_of (Content.message e) = some e
message_of _ = none

-- The handlers that take over the permission of the answer.
unfoldable pub takes_permission : String → ClientHandler
takes_permission success content c = elim (permission_of content) [
  | none ↦ (err json_error, c)
  | some permission ↦ show (Printed.notice success) (record c { permission = permission })
]

abbrev pub says : String → ClientHandler
says success content c = show (Printed.notice success) c

-- The handlers that print an answer of one kind.
unfoldable pub shows : (Content → Bool) → ClientHandler
shows fits content c =
    if fits content then show (Printed.listing content) c else (err json_error, c)

abbrev is_table_list : Content → Bool
is_table_list (Content.table_list _) = true
is_table_list _ = false

abbrev is_user_list : Content → Bool
is_user_list (Content.user_list _) = true
is_user_list _ = false

abbrev is_written : Content → Bool
is_written (Content.written _ _) = true
is_written _ = false

abbrev is_random_number : Content → Bool
is_random_number (Content.random_number _) = true
is_random_number _ = false

-- The loop over an answer without elements prints the head of the table alone.
abbrev is_bet_list : Content → Bool
is_bet_list (Content.bet_list _) = true
is_bet_list Content.empty = true
is_bet_list _ = false

abbrev is_balance : Content → Bool
is_balance (Content.balance _) = true
is_balance _ = false

abbrev is_payment : Content → Bool
is_payment (Content.payment _ _) = true
is_payment _ = false

abbrev for_all : ClientHandler → ℕ × ClientHandler
for_all handler = (Permissions.all, handler)

-- The constructor of `ClientHandlers`.
unfoldable pub client_handlers : Handlers ClientHandler
unfolding takes_permission shows
client_handlers =
    ("signin", for_all (takes_permission "signin success"))
    ∷ ("signout", for_all (takes_permission "signout success"))
    ∷ ("join", for_all (takes_permission "join success"))
    ∷ ("create", for_all (takes_permission "create success"))
    ∷ ("leave", for_all (takes_permission "leave success"))
    ∷ ("tables", for_all (shows is_table_list))
    ∷ ("users", for_all (shows is_user_list))
    ∷ ("write", for_all (shows is_written))
    ∷ ("sync", for_all (takes_permission "sync success"))
    ∷ ("signup", for_all (says "registration success"))
    ∷ ("set", for_all (says "permission set success"))
    ∷ ("spin", for_all (shows is_random_number))
    ∷ ("bet", for_all (says "bet success"))
    ∷ ("bets", for_all (shows is_bet_list))
    ∷ ("balance", for_all (shows is_balance))
    ∷ ("pay", for_all (shows is_payment))
    ∷ ("kick", for_all (says "user kicked"))
    ∷ []

abbrev pub handled : Result ClientHandler → ClientHandler
handled (ok handler) content c = handler content c
handled (err e) content c = show (Printed.trouble e) c

abbrev pub reported : String → ClientHandler
reported command content c = elim (message_of content) [
  | none ↦ (err json_error, c)
  | some e ↦ show (Printed.report command e) c
]

unfoldable pub session_input : Answer → Client → Reply
session_input a c =
    if a.status == "error"
    then reported a.command a.content c
    else handled (select client_handlers c.permission a.command) a.content c
