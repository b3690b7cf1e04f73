-- ===== src/Server/Seating.antt =====
-- Joining, opening and leaving tables (src/core/Server.cpp: `get_session_name` to `add_croupier`,
-- `leave_player`, `leave_croupier`).
use asinc_roulette.Base.{
  ℕ, String, [], ◌∷◌, ◌==◌, not, nat_eq, string_eq, emplace, erase_key, length, if◌then◌else◌,
}
use asinc_roulette.Base.Map.{lookup, member, insert, erase}
use asinc_roulette.Failure.{
  session_not_found, table_not_found, table_is_full, table_exists, croupier_is_no_player,
  wrong_table_password,
}
use asinc_roulette.Permissions
use asinc_roulette.Storage.{Sqlite, get_user_permission}
use asinc_roulette.Server.State.{
  Table, Action, Content, pure, lift, gets, or_throw, throw_if, modify, succeed, for_each, ◌>>=◌,
  ◌>>◌,
}
use asinc_roulette.Server.Users.{get_login, get_id, local_set_user_permission}

abbrev pub max_players : ℕ
max_players = 5

module _ {D : Type 0} where
  unfoldable pub get_session_name : ℕ → Action D String
  get_session_name id = do or_throw (← gets (λ s. lookup id s.id2name)) session_not_found

  -- The key of the table with the table.
  unfoldable pub get_session : ℕ → Action D (String × Table)
  unfolding get_session_name
  get_session id = do
    name ← get_session_name id
    session ← or_throw (← gets (λ s. lookup name s.sessions)) session_not_found
    pure (name, session)

  -- A write through the reference that `get_session` returned.
  unfoldable pub set_session : String → Table → Action D Unit
  set_session name session = modify λ s. record s { sessions = insert name session s.sessions }

  unfoldable pub add_player : ℕ → String → String → Action D Unit
  unfolding local_set_user_permission set_session get_login
  add_player id name password = do
    session ← or_throw (← gets (λ s. lookup name s.sessions)) (table_not_found name)
    throw_if (session.max_players == length session.users) table_is_full
    throw_if (not (session.password == password)) wrong_table_password
    login ← get_login id
    modify λ s. record s { id2name = insert id name s.id2name }
    set_session name (record session { users = emplace login session.users })
    local_set_user_permission id Permissions.player

  unfoldable pub add_croupier : ℕ → String → String → Action D Unit
  unfolding local_set_user_permission set_session get_login
  add_croupier id name password = do
    throw_if (← gets (λ s. member name s.sessions)) (table_exists name)
    login ← get_login id
    set_session name (record {
      name = name;
      password = password;
      croupier = login;
      users = login ∷ [];
      max_players = max_players;
      bets = [];
    })
    modify λ s. record s { id2name = insert id name s.id2name }
    local_set_user_permission id Permissions.croupier

module _ {D : Type 0} ⦃sql : Sqlite D⦄ where
  unfoldable pub back_to_hall : ℕ → String → Action D Unit
  unfolding local_set_user_permission get_user_permission
  back_to_hall id login = do
    permission ← lift (← gets (λ s. get_user_permission s.data_base login))
    local_set_user_permission id permission
    succeed id "leave" (Content.permission permission)

  unfoldable pub leave_player : ℕ → Action D Unit
  unfolding get_session get_login back_to_hall set_session
  leave_player id = do
    (key, session) ← get_session id
    login ← get_login id
    throw_if (session.croupier == login) croupier_is_no_player
    set_session key
        (record session { users = erase_key login session.users; bets = erase login session.bets })
    back_to_hall id login

  unfoldable pub leave_croupier : ℕ → Action D Unit
  unfolding get_session leave_player get_login back_to_hall
  leave_croupier id = do
    (key, session) ← get_session id
    for_each session.users
        λ login. if login == session.croupier then pure tt else (do leave_player (← get_id login))
    modify λ s. record s { sessions = erase session.name s.sessions }
    login ← get_login id
    back_to_hall id login
