-- ===== src/Server/Users.antt =====
-- Who is behind a connection (src/core/Server.cpp: `get_user`, `get_login`, `get_permission`,
-- `get_id`, `add_user`, `remove_user`, `local_set_user_permission`).
use asinc_roulette.Base.{ℕ, String, nat_eq, string_eq}
use asinc_roulette.Base.Map.{lookup, insert, erase}
use asinc_roulette.Failure.{user_is_gone, id_not_found}
use asinc_roulette.Storage.{User}
use asinc_roulette.Server.State.{Action, pure, gets, or_throw, modify, ◌>>=◌}

module _ {D : Type 0} where
  unfoldable pub get_user : ℕ → Action D User
  get_user id = do or_throw (← gets (λ s. lookup id s.users)) user_is_gone

  unfoldable pub get_login : ℕ → Action D String
  unfolding get_user
  get_login id = do user ← get_user id; pure user.login

  unfoldable pub get_permission : ℕ → Action D ℕ
  unfolding get_user
  get_permission id = do user ← get_user id; pure user.permission

  unfoldable pub get_id : String → Action D ℕ
  get_id login = do or_throw (← gets (λ s. lookup login s.login2id)) id_not_found

  unfoldable pub add_user : ℕ → User → Action D Unit
  add_user id user =
      modify
        λ s. record s { login2id = insert user.login id s.login2id; users = insert id user s.users }

  unfoldable pub remove_user : ℕ → Action D Unit
  unfolding get_login
  remove_user id = do
    login ← get_login id
    modify λ s. record s { login2id = erase login s.login2id; users = erase id s.users }

  unfoldable pub local_set_user_permission : ℕ → ℕ → Action D Unit
  unfolding get_user add_user
  local_set_user_permission id permission = do
    user ← get_user id
    add_user id (record user { permission = permission })
