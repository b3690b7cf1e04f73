-- ===== src/Client/Requests.antt =====
-- What the methods of `class Client` send (src/core/Client.cpp), before it is printed as JSON.
use asinc_roulette.Base.{String, List, [], ◌∷◌}
use asinc_roulette.Base.Int.{ℤ}
use asinc_roulette.Client.Words.{Word}

pub data Value : Type 0 where
  text : Word → Value
  integer : ℤ → Value

-- `command` and `data` of a request.
pub record Request : Type 0 where
  pub command : String
  pub arguments : List (String × Value)

abbrev pub bare : String → Request
bare command = record { command = command; arguments = [] }

abbrev credentials : String → String → Word → Word → Request
credentials command part name password = record {
  command = command;
  arguments = (part, Value.text name) ∷ ("password", Value.text password) ∷ [];
}

abbrev pub login : Word → Word → Request
login name password = credentials "signin" "login" name password

abbrev pub logout : Request
logout = bare "signout"

abbrev pub join : Word → Word → Request
join name password = credentials "join" "name" name password

abbrev pub create : Word → Word → Request
create name password = credentials "create" "name" name password

abbrev pub leave : Request
leave = bare "leave"

abbrev pub write : Word → Request
write message = record { command = "write"; arguments = ("message", Value.text message) ∷ [] }

abbrev pub write_to : Word → Word → Request
write_to login message = record {
  command = "write";
  arguments = ("login", Value.text login) ∷ ("message", Value.text message) ∷ [];
}

abbrev pub tables : Request
tables = bare "tables"

abbrev pub users : Request
users = bare "users"

abbrev pub disconnect : Request
disconnect = bare "disconnect"

abbrev pub sync : Request
sync = bare "sync"

abbrev pub registration : Word → Word → Request
registration login password = credentials "signup" "login" login password

abbrev pub set_permission : Word → ℤ → Request
set_permission login permission = record {
  command = "set";
  arguments = ("login", Value.text login) ∷ ("permission", Value.integer permission) ∷ [];
}

abbrev pub bet : Word → ℤ → ℤ → Request
bet type number value = record {
  command = "bet";
  arguments =
      ("type", Value.text type)
      ∷ ("number", Value.integer number)
      ∷ ("value", Value.integer value)
      ∷ [];
}

abbrev pub bets : Request
bets = bare "bets"

abbrev pub spin : Request
spin = bare "spin"

abbrev pub balance : Request
balance = bare "balance"

abbrev pub kick : Word → Request
kick login = record { command = "kick"; arguments = ("login", Value.text login) ∷ [] }
