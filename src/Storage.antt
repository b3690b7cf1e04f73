-- ===== src/Storage.antt =====
-- `class DataBase` (src/core/DataBase.h, src/core/DataBase.cpp). SQLite is not part of the
-- program: `Sqlite` has one operation for each SQL statement of the source, and `IsTable` says
-- what the source relies on, that the statements act on one table whose key is the login.
pub mod Example
use Prim.Native.Nat.{bit_or}
use asinc_roulette.Base.{ℕ, String, ◌≡◌, ◌≢◌, ◌==◌, string_eq, Option, none, some, if◌then◌else◌}
use asinc_roulette.Base.Int.{ℤ, pos}
use asinc_roulette.Failure.{Error, Result, ok, err, user_not_found, user_exists, ◌>>=◌}
use asinc_roulette.Permissions
use mathlib.Core.Option.{map}

pub record User : Type 0 where
  pub login : String
  pub password : String
  pub permission : ℕ
  pub balance : ℤ

-- `user_t{login, password, permission, pouch}`
abbrev pub with_login : String → User → User
with_login login u = record u { login = login }

abbrev pub with_permission : ℕ → User → User
with_permission p u = record u { permission = p }

abbrev pub with_balance : ℤ → User → User
with_balance b u = record u { balance = b }

-- A call that raises `SQLite::Exception` returns `none`.
pub record Sqlite (D : Type 0) : Type 0 where
  -- `SELECT ... FROM users WHERE login = ?`; `none` also if there is no such row
  pub select : D → String → Option User
  -- `INSERT INTO users VALUES (?, ?, ?, ?)`
  pub insert : D → User → Option D
  -- `UPDATE users SET permission = ? WHERE login = ?`
  pub update_permission : D → ℕ → String → Option D
  -- `UPDATE users SET balance = ? WHERE login = ?`
  pub update_balance : D → ℤ → String → Option D
  -- `DROP TABLE IF EXISTS users` and `CREATE TABLE users (...)`
  pub create : D → D

-- The documented meaning of the statements: the login is the primary key, and an `UPDATE` that
-- succeeds changes the rows with that login only, of which there may be none.
pub record IsTable {D : Type 0} (sql : Sqlite D) : Type 0 where
  pub select-insert :
      (d d' : D) (u : User) (k : String)
      → sql.insert d u ≡ some d'
      → sql.select d' k ≡ (if k == u.login then some u else sql.select d k)
  pub insert_known : (d : D) (u v : User) → sql.select d u.login ≡ some v → sql.insert d u ≡ none
  pub select-update_permission :
      (d d' : D) (p : ℕ) (l k : String)
      → sql.update_permission d p l ≡ some d'
      → sql.select d' k
        ≡ (if k == l then map (with_permission p) (sql.select d k) else sql.select d k)
  pub select-update_balance :
      (d d' : D) (b : ℤ) (l k : String)
      → sql.update_balance d b l ≡ some d'
      → sql.select d' k ≡ (if k == l then map (with_balance b) (sql.select d k) else sql.select d k)
  pub select-create : (d : D) (k : String) → sql.select (sql.create d) k ≡ none

abbrev pub start_up_capital : ℤ
start_up_capital = pos 100

abbrev or_error : {A : Type 0} → Option A → Error → Result A
or_error none e = err e
or_error (some a) e = ok a

module _ {D : Type 0} ⦃sql : Sqlite D⦄ where
  unfoldable pub get_user : D → String → Result User
  get_user d login = or_error (map (with_login login) (sql.select d login)) user_not_found

  unfoldable pub new_user : D → String → String → ℕ → Result D
  new_user d login password permission =
      or_error
        (sql.insert d (record {
          login = login;
          password = password;
          permission = permission;
          balance = start_up_capital;
        }))
        user_exists

  unfoldable pub set_user_permission : D → String → ℕ → Result D
  set_user_permission d login permission =
      or_error (sql.update_permission d permission login) user_not_found

  unfoldable pub set_user_balance : D → String → ℤ → Result D
  set_user_balance d login balance = or_error (sql.update_balance d balance login) user_not_found

  unfoldable pub get_user_permission : D → String → Result ℕ
  unfolding get_user
  get_user_permission d login = do u ← get_user d login; ok u.permission

  unfoldable pub get_user_pouch : D → String → Result ℤ
  unfolding get_user
  get_user_pouch d login = do u ← get_user d login; ok u.balance

  -- The table with its two first rows; an exception that leaves `init` is `user_exists`.
  unfoldable pub init : D → Result D
  init d = do
    d' ←
        or_error
          (sql.insert (sql.create d) (record {
            login = "admin";
            password = "admin";
            permission = bit_or Permissions.admin Permissions.staff;
            balance = pos 10000000;
          }))
          user_exists
    or_error
        (sql.insert d' (record {
          login = "guest";
          password = "guest";
          permission = Permissions.guest;
          balance = start_up_capital;
        }))
        user_exists
