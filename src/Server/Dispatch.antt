-- ===== src/Server/Dispatch.antt =====
-- From a message to a command: the handlers (src/handlers/ServerHandlers.cpp), and
-- `session_handle`, `connect_handle` and `disconnect_handle` (src/core/Server.cpp).
use asinc_roulette.Base.{
  ℕ, ◌+◌, ◌-◌, ◌^◌, ◌%◌, String, Bool, true, false, [], ◌∷◌, nat_eq, emplace, erase_key,
  if◌then◌else◌,
}
use asinc_roulette.Base.Int.{ℤ, pos_part, neg_part}
use asinc_roulette.Failure.{Error, Result, ok, err, is_caught, json_error}
use asinc_roulette.Handlers.{Handlers, select}
use asinc_roulette.Json.{Json}
use asinc_roulette.Permissions
use asinc_roulette.Storage
use asinc_roulette.Storage.{Sqlite}
use asinc_roulette.Server.State.{
  Action, Content, pure, lift, gets, or_throw, modify, send, ◌>>=◌, ◌>>◌,
}
use asinc_roulette.Server.Users.{get_permission, add_user}
use asinc_roulette.Server.Game.{do_balance, do_bet, do_bets, do_spin}
use asinc_roulette.Server.Requests.{
  do_signin, do_signout, do_signup, do_join, do_create, do_leave, do_write, do_write_to, do_tables,
  do_users, do_sync, do_set_permission, do_kick, do_disconnect,
}

-- The bit pattern of an `int`.
abbrev pub pattern_of : ℤ → ℕ
pattern_of a = (pos_part a + (2 ^ 32 - neg_part a % 2 ^ 32)) % 2 ^ 32

module _ {D J : Type 0} ⦃json : Json J⦄ where
  -- A member of the request, converted; an exception of the library is not caught here.
  unfoldable pub text : J → String → Action D String
  text body name = do
    value ← or_throw (json.field body name) json_error
    or_throw (json.as_string value) json_error

  unfoldable pub number : J → String → Action D ℤ
  number body name = do
    value ← or_throw (json.field body name) json_error
    or_throw (json.as_int value) json_error

-- What a handler does with the connection and the `data` part of a request. The result is
-- whether the connection is to be closed. `rand` is what `std::rand()` returns if it is called.
abbrev pub Handler : Type 0 → Type 0 → Type 0
Handler D J = ℕ → ℕ → J → Action D Bool

abbrev then_stay : {D : Type 0} → Action D Unit → Action D Bool
then_stay m = m >>= λ _. pure false

module _ {D : Type 0} where
  -- `handle_error`
  unfoldable pub handle_error : ℕ → String → Error → Action D Unit
  handle_error id command e = send id "error" command (Content.message e)

  -- The `catch` clauses: the error is answered, and the connection stays.
  abbrev pub answer_error : ℕ → String → Result Bool → Action D Bool
  answer_error id command (ok close) = pure close
  answer_error id command (err e) =
      if is_caught e then then_stay (handle_error id command e) else lift (err e)

module _ {D J : Type 0} ⦃sql : Sqlite D⦄ ⦃json : Json J⦄ where
  -- To one user if the request names one, to the whole table if not.
  unfoldable pub write_handler : Handler D J
  unfolding text
  write_handler rand id body =
      let to_one : Action D Unit = (do
        login ← text body "login"
        message ← text body "message"
        do_write_to id login message) in
      let to_all : Action D Unit = (do message ← text body "message"; do_write id message) in
      then_stay (if json.has body "login" then to_one else to_all)

  unfoldable pub bet_handler : Handler D J
  unfolding text number
  bet_handler rand id body = do
    type ← text body "type"
    number' ← number body "number"
    value ← number body "value"
    do_bet id (record { type = type; number = number'; value = value })
    pure false

  unfoldable pub set_handler : Handler D J
  unfolding text number
  set_handler rand id body = do
    login ← text body "login"
    permission ← number body "permission"
    do_set_permission id login (pattern_of permission)
    pure false

  -- Two texts of the request, for the commands that take a pair.
  unfoldable pub pair_handler :
      String → String → (ℕ → String → String → Action D Unit) → Handler D J
  unfolding text
  pair_handler first second command rand id body = do
    a ← text body first
    b ← text body second
    command id a b
    pure false

  unfoldable pub kick_handler : Handler D J
  unfolding text
  kick_handler rand id body = do login ← text body "login"; do_kick id login; pure false

  -- The constructor of `ServerHandlers`.
  unfoldable pub server_handlers : Handlers (Handler D J)
  unfolding write_handler bet_handler set_handler pair_handler kick_handler
  server_handlers =
      ("signin", (Permissions.guest, pair_handler "login" "password" do_signin))
      ∷ ("signout", (Permissions.wait, λ rand id body. then_stay (do_signout id)))
      ∷ ("join", (Permissions.wait, pair_handler "name" "password" do_join))
      ∷ ("create", (Permissions.staff, pair_handler "name" "password" do_create))
      ∷ ("leave", (Permissions.play, λ rand id body. then_stay (do_leave id)))
      ∷ ("tables", (Permissions.wait, λ rand id body. then_stay (do_tables id)))
      ∷ ("users", (Permissions.play, λ rand id body. then_stay (do_users id)))
      ∷ ("write", (Permissions.play, write_handler))
      ∷ ("disconnect", (Permissions.all, λ rand id body. pure true))
      ∷ ("sync", (Permissions.auth, λ rand id body. then_stay (do_sync id)))
      ∷ ("signup", (Permissions.guest, pair_handler "login" "password" do_signup))
      ∷ ("set", (Permissions.admin, set_handler))
      ∷ ("spin", (Permissions.croupier, λ rand id body. then_stay (do_spin rand id)))
      ∷ ("bet", (Permissions.player, bet_handler))
      ∷ ("bets", (Permissions.play, λ rand id body. then_stay (do_bets id)))
      ∷ ("balance", (Permissions.auth, λ rand id body. then_stay (do_balance id)))
      ∷ ("kick", (Permissions.croupier, kick_handler))
      ∷ []

  -- The body of the `try` block.
  unfoldable pub execute : ℕ → ℕ → String → J → Action D Bool
  execute rand id command body = do
    permission ← get_permission id
    handler ← lift (select server_handlers permission command)
    handler rand id body

  unfoldable pub execute_and_answer : ℕ → ℕ → String → J → Action D Bool
  unfolding execute handle_error
  execute_and_answer rand id command body s =
      let (r, s') = execute rand id command body s in answer_error id command r s'

module _ {D : Type 0} (J : Type 0) ⦃sql : Sqlite D⦄ ⦃json : Json J⦄ where
  unfoldable pub session_handle : ℕ → ℕ → String → Action D Bool
  unfolding text execute_and_answer
  session_handle rand id message = do
    request ← or_throw (json.parse message) json_error
    command ← text request "command"
    body ← or_throw (json.field request "data") json_error
    execute_and_answer rand id command body

module _ {D : Type 0} ⦃sql : Sqlite D⦄ where
  -- The transport has the connection when this is called.
  unfoldable pub connect_handle : ℕ → Action D Unit
  connect_handle id = do
    modify λ s. record s { clients = emplace id s.clients }
    user ← lift (← gets (λ s. Storage.get_user s.data_base "guest"))
    add_user id user

  unfoldable pub disconnect_handle : ℕ → Action D Unit
  disconnect_handle id = do
    modify λ s. record s { clients = erase_key id s.clients }
    do_disconnect id
