-- ===== src/Failure.antt =====
-- The exceptions that the code throws, and computations that may throw.
-- `ServerHandlers::error`, `DataBase::error` and `Server::error` are caught by
-- `Server::session_handle` (src/core/Server.cpp); the others end the connection.
use asinc_roulette.Base.{Bool, true, false, String, ◌≡◌, refl, ◌⊎◌, inl, inr}

pub data Error : Type 0 where
  -- src/handlers/Handlers.h
  handler_not_found permission_denied : Error
  -- src/core/DataBase.cpp
  user_not_found user_exists : Error
  -- src/core/Server.cpp
  already_logged_in : String → Error
  invalid_password not_at_table session_not_found croupier_is_no_player : Error
  table_not_found table_exists : String → Error
  table_is_full wrong_table_password id_not_found user_is_gone not_enough_money : Error
  illegal_bet_type undefined_bet_type : String → Error
  illegal_bet_number : Error
  -- src/transfer/tcp/TransferServer.cpp: a message to a connection that is not there
  connection_not_found epoll_error : Error
  -- thrown by the socket and by the JSON library
  socket_error json_error : Error
  -- src/session/Session.cpp, and `std::vector` asked for a negative number of elements
  wrong_message_format encryption_failed decryption_failed undefined_message length_error : Error
  -- src/session/Session.cpp and src/session/SessionClient.cpp
  no_public_key input_before_key wrong_initial_message : Error
  -- what the language leaves undefined
  undefined_behaviour : Error
  -- `std::terminate`
  terminated : Error

-- The `catch` clauses of `session_handle`.
abbrev pub is_caught : Error → Bool
is_caught socket_error = false
is_caught json_error = false
is_caught undefined_behaviour = false
is_caught epoll_error = false
is_caught terminated = false
is_caught wrong_message_format = false
is_caught encryption_failed = false
is_caught decryption_failed = false
is_caught undefined_message = false
is_caught length_error = false
is_caught no_public_key = false
is_caught input_before_key = false
is_caught wrong_initial_message = false
is_caught _ = true

pub data Result (A : Type 0) : Type 0 where
  ok : A → Result A
  err : Error → Result A

infixl 5 ◌>>=◌ ◌>>◌
abbrev pub ◌>>=◌ : {A B : Type 0} → Result A → (A → Result B) → Result B
ok a >>= f = f a
err e >>= f = err e

abbrev pub ◌>>◌ : {B : Type 0} → Result (Unit {0}) → Result B → Result B
m >> k = m >>= λ _. k

pub Result-cases :
    {A : Type 0} (r : Result A) → ((a : A) × (r ≡ ok a)) ⊎ ((e : Error) × (r ≡ err e))
Result-cases (ok a) = inl (a, refl)
Result-cases (err e) = inr (e, refl)
