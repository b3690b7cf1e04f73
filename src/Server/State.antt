-- ===== src/Server/State.antt =====
-- The data of `class Server` (src/core/Server.h), its answers, and actions on it that may throw.
use asinc_roulette.Base.{
  ℕ, String, Bool, Option, none, some, List, [], ◌∷◌, ◌++◌, contains, nat_eq, if◌then◌else◌,
}
use asinc_roulette.Base.Int.{ℤ}
use asinc_roulette.Base.Map.{Map}
use asinc_roulette.Failure.{Error, Result, ok, err, connection_not_found, socket_error}
use asinc_roulette.Roulette.Bets.{Bet}
use asinc_roulette.Storage.{User}

-- `session_t`: a table of the game.
pub record Table : Type 0 where
  pub name : String
  pub password : String
  pub croupier : String
  pub users : List String
  pub max_players : ℕ
  pub bets : Map String (List Bet)

-- What the transport does with a message to a client: it takes it, it has no such connection
-- (`TransferServer::send` throws), or the socket or the encryption throws.
pub data Link : Type 0 where
  up missing broken : Link

-- The `data` part of an answer.
pub data Content : Type 0 where
  empty : Content
  message : Error → Content
  permission random_number : ℕ → Content
  written : String → String → Content
  balance : ℤ → Content
  -- name, number of players, limit, lock
  table_list : List (String × ℕ × ℕ × Bool) → Content
  -- login, role
  user_list : List (String × String) → Content
  bet_list : List (String × Bet) → Content
  payment : Bet → ℤ → Content

pub record Answer : Type 0 where
  pub to : ℕ
  pub status : String
  pub command : String
  pub content : Content

pub record Server (D : Type 0) : Type 0 where
  pub data_base : D
  pub id2name : Map ℕ String
  pub login2id : Map String ℕ
  pub users : Map ℕ User
  pub sessions : Map String Table
  -- `SessionServer::clients`, its keys
  pub clients : List ℕ
  -- the transport under it, and what it has been given, oldest first
  pub links : ℕ → Link
  pub outbox : List Answer

-- What was written before an exception stays written.
abbrev pub Action : Type 0 → Type 0 → Type 0
Action D A = Server D → Result A × Server D

module _ {D A : Type 0} where
  unfoldable pub pure : A → Action D A
  pure a s = (ok a, s)

  unfoldable pub throw : Error → Action D A
  throw e s = (err e, s)

  unfoldable pub lift : Result A → Action D A
  lift r s = (r, s)

  unfoldable pub gets : (Server D → A) → Action D A
  gets f s = (ok (f s), s)

  unfoldable pub or_throw : Option A → Error → Action D A
  or_throw none e s = (err e, s)
  or_throw (some a) e s = (ok a, s)

module _ {D : Type 0} where
  unfoldable pub modify : (Server D → Server D) → Action D Unit
  modify f s = (ok tt, f s)

  -- `if (c) throw ...`
  unfoldable pub throw_if : Bool → Error → Action D Unit
  throw_if c e s = (if c then err e else ok tt, s)

module _ {D A B : Type 0} where
  abbrev pub continue : Result A → (A → Action D B) → Action D B
  continue (ok a) f s = f a s
  continue (err e) f s = (err e, s)

  infixl 5 ◌>>=◌ ◌>>◌
  -- Opening this opens the simple actions too.
  unfoldable pub ◌>>=◌ : Action D A → (A → Action D B) → Action D B
  unfolding pure throw lift gets or_throw modify throw_if
  ◌>>=◌ m f s = let (r, s') = m s in continue r f s'

  abbrev pub ◌>>◌ : Action D A → Action D B → Action D B
  m >> n = m >>= λ _. n

module _ {D : Type 0} where
  abbrev pub deliver : Link → Answer → Action D Unit
  deliver Link.up a s = (ok tt, record s { outbox = s.outbox ++ a ∷ [] })
  deliver Link.missing a s = (err connection_not_found, s)
  deliver Link.broken a s = (err socket_error, s)

  -- `Server::send`, then `SessionServer::send`, which drops the message of a client that is gone.
  unfoldable pub send : ℕ → String → String → Content → Action D Unit
  unfolding contains
  send id status command content s =
      let a : Answer = record { to = id; status = status; command = command; content = content } in
      if contains id s.clients then deliver (s.links id) a s else (ok tt, s)

  -- The answer of a command that was done.
  abbrev pub succeed : ℕ → String → Content → Action D Unit
  succeed id command content = send id "success" command content

  -- `for (auto &&x : xs) f(x);`
  unfoldable pub for_each : {A : Type 0} → List A → (A → Action D Unit) → Action D Unit
  unfolding pure
  for_each [] f = pure tt
  for_each (x ∷ xs) f = f x >>= λ _. for_each xs f
