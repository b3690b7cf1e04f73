-- ===== src/Server/Requests.antt =====
-- The other commands (src/core/Server.cpp, `do_signin` to `do_set_permission`, `do_kick`).
use asinc_roulette.Base.{
  ℕ, String, Bool, not, List, [], ◌∷◌, map, ◌==◌, nat_eq, string_eq, contains, length,
  if◌then◌else◌,
}
use asinc_roulette.Base.Map.{member}
use asinc_roulette.Failure.{already_logged_in, invalid_password, not_at_table}
use asinc_roulette.Permissions
use asinc_roulette.Permissions.{allows}
use asinc_roulette.Storage
use asinc_roulette.Storage.{Sqlite, new_user}
use asinc_roulette.Server.State.{
  Table, Action, Content, pure, lift, gets, throw_if, modify, succeed, for_each, ◌>>=◌, ◌>>◌,
}
use asinc_roulette.Server.Users.{
  get_login, get_permission, get_id, add_user, remove_user, local_set_user_permission,
}
use asinc_roulette.Server.Seating.{
  get_session, add_player, add_croupier, leave_player, leave_croupier,
}

-- One line of the list of tables: name, players, limit, and whether a password is needed.
abbrev pub table_row : Table → String × ℕ × ℕ × Bool
table_row t = (t.name, length t.users, t.max_players, not (t.password == ""))

module _ {D : Type 0} where
  unfoldable pub do_join : ℕ → String → String → Action D Unit
  do_join id name password = do
    add_player id name password
    succeed id "join" (Content.permission Permissions.player)

  unfoldable pub do_create : ℕ → String → String → Action D Unit
  do_create id name password = do
    add_croupier id name password
    succeed id "create" (Content.permission Permissions.croupier)

  -- `do_write` with a login: to one user at the table.
  unfoldable pub do_write_to : ℕ → String → String → Action D Unit
  do_write_to id login message = do
    (key, session) ← get_session id
    throw_if (not (contains login session.users)) not_at_table
    to ← get_id login
    from ← get_login id
    succeed to "write" (Content.written from message)

  unfoldable pub do_write : ℕ → String → Action D Unit
  do_write id message = do
    (key, session) ← get_session id
    for_each session.users λ login. do
      dest_id ← get_id login
      if id == dest_id then pure tt else do_write_to id login message

  unfoldable pub do_tables : ℕ → Action D Unit
  do_tables id = do
    sessions ← gets (λ s. s.sessions)
    succeed id "tables"
        (Content.table_list (map (λ (en : String × Table). table_row en.1) sessions))

  unfoldable pub user_rows : List String → Action D (List (String × String))
  user_rows [] = pure []
  user_rows (login ∷ users) = do
    permission ← get_permission (← get_id login)
    rest ← user_rows users
    pure ((login, if allows permission Permissions.croupier then "croupier" else "player") ∷ rest)

  unfoldable pub do_users : ℕ → Action D Unit
  do_users id = do
    (key, session) ← get_session id
    succeed id "users" (Content.user_list (← user_rows session.users))

  unfoldable pub do_sync : ℕ → Action D Unit
  do_sync id = do succeed id "sync" (Content.permission (← get_permission id))

module _ {D : Type 0} ⦃sql : Sqlite D⦄ where
  unfoldable pub do_signin : ℕ → String → String → Action D Unit
  do_signin id login password = do
    throw_if (← gets (λ s. member login s.login2id)) (already_logged_in login)
    user ← lift (← gets (λ s. Storage.get_user s.data_base login))
    throw_if (not (user.password == password)) invalid_password
    add_user id user
    succeed id "signin" (Content.permission user.permission)

  unfoldable pub do_signout : ℕ → Action D Unit
  do_signout id = do
    user ← lift (← gets (λ s. Storage.get_user s.data_base "guest"))
    add_user id user
    succeed id "signout" (Content.permission Permissions.guest)

  unfoldable pub do_signup : ℕ → String → String → Action D Unit
  do_signup id login password = do
    data_base ← lift (← gets (λ s. new_user s.data_base login password Permissions.user))
    modify λ s. record s { data_base = data_base }
    succeed id "signup" Content.empty

  unfoldable pub leave_by : ℕ → ℕ → Action D Unit
  leave_by permission id = do
    if allows permission Permissions.croupier then leave_croupier id else pure tt
    if allows permission Permissions.player then leave_player id else pure tt

  unfoldable pub do_leave : ℕ → Action D Unit
  unfolding leave_by
  do_leave id = do leave_by (← get_permission id) id

  unfoldable pub do_disconnect : ℕ → Action D Unit
  unfolding leave_by
  do_disconnect id = do
    login ← get_login id
    permission ← get_permission id
    leave_by permission id
    remove_user id

  -- `if (user_online) { ... }`
  unfoldable pub update_online : String → ℕ → Action D Unit
  update_online login permission = do
    user_id ← get_id login
    local_set_user_permission user_id permission
    do_sync user_id

  unfoldable pub do_set_permission : ℕ → String → ℕ → Action D Unit
  unfolding update_online
  do_set_permission id login permission = do
    data_base ← lift (← gets (λ s. Storage.set_user_permission s.data_base login permission))
    modify λ s. record s { data_base = data_base }
    user_online ← gets (λ s. member login s.login2id)
    if user_online then update_online login permission else pure tt
    succeed id "set" Content.empty

  unfoldable pub do_kick : ℕ → String → Action D Unit
  do_kick id login = do
    user_id ← get_id login
    leave_player user_id
    succeed id "kick" Content.empty
