-- ===== src/Client/Commands.antt =====
-- The commands of the client program (src/commands/Commands.cpp, src/commands/ClientCommands.cpp,
-- `Client::set_permission` of src/core/Client.cpp).
use Prim.Native.Nat.{bit_and}
use asinc_roulette.Base.{
  ℕ, String, Bool, true, false, not, ◌&&◌, List, [], ◌∷◌, Option, none, some, ◌==◌, nat_eq,
  if◌then◌else◌,
}
use asinc_roulette.Base.Int.{ℤ, pos, ltb_ℤ, pos_part}
use asinc_roulette.Permissions
use asinc_roulette.Permissions.{allows}
use asinc_roulette.Roulette.Bets
use asinc_roulette.Client.Words.{Word, codes, parse, str2int, Number}
use asinc_roulette.Client.Requests
use asinc_roulette.Client.Requests.{Request}

-- What the user sees: the name of a command, its arguments and its description.
pub record Info : Type 0 where
  pub permission : ℕ
  pub name : String
  pub argument_description : String
  pub description : String

pub data Effect : Type 0 where
  send : Request → Effect
  stop : Effect
  show_commands : List Info → Effect
  show_bets : List String → Effect

-- A command is done, is refused with a message, or throws what nobody catches.
pub data Outcome : Type 0 where
  done : List Effect → Outcome
  refused : String → Outcome
  uncaught : Outcome

abbrev pub Impl : Type 0
Impl = ℕ → List Word → Outcome

abbrev pub sends : Request → Outcome
sends request = Outcome.done (Effect.send request ∷ [])

abbrev no_arguments : String → List Effect → Impl
no_arguments message effects permission [] = Outcome.done effects
no_arguments message effects permission (_ ∷ _) = Outcome.refused message

abbrev pair_of : String → (Word → Word → Outcome) → Impl
pair_of message run permission (a ∷ b ∷ []) = run a b
pair_of message run permission _ = Outcome.refused message

-- A table and an optional password.
abbrev table_of : (Word → Word → Request) → Impl
table_of request permission (name ∷ password ∷ []) = sends (request name password)
table_of request permission (name ∷ []) = sends (request name [])
table_of request permission _ = Outcome.refused "expected name table and optional password"

-- Of the entries, those that the permission allows.
unfoldable pub get_commands_info : ℕ → List Info → List Info
get_commands_info permission [] = []
get_commands_info permission (info ∷ infos) =
    let rest = get_commands_info permission infos in
    if allows permission info.permission then info ∷ rest else rest

abbrev pub write : Impl
write permission (message ∷ []) = sends (Requests.write message)
write permission (login ∷ message ∷ []) = sends (Requests.write_to login message)
write permission _ = Outcome.refused "expected optiponal login and message arguments"

-- `permission & ~permissions::WAIT` of an `int` that is not negative.
abbrev outside_wait : ℤ → Bool
outside_wait permission =
    not (bit_and (pos_part permission) Permissions.wait == pos_part permission)

-- A number that is not negative, or what comes of another text.
abbrev natural : Word → String → (ℤ → Outcome) → Outcome
natural word message run = elim (str2int word) [
  | Number.uncaught ↦ Outcome.uncaught
  | Number.no_number ↦ Outcome.refused message
  | Number.number n ↦ if ltb_ℤ n (pos 0) then Outcome.refused message else run n
]

unfoldable pub set_permission : Impl
set_permission permission (login ∷ word ∷ []) =
    natural word "permission parse error" λ new_permission.
      if outside_wait new_permission
      then Outcome.refused "changing permission on not WAIT permissions is impossible"
      else sends (Requests.set_permission login new_permission)
set_permission permission _ = Outcome.refused "expected only login and new permission"

unfoldable pub bet : Impl
bet permission (type ∷ number ∷ value ∷ []) =
    natural number "bet number parse error"
      λ n. natural value "bet value parse error" λ v. sends (Requests.bet type n v)
bet permission _ = Outcome.refused "expected only type, number and value"

abbrev pub kick : Impl
kick permission (login ∷ []) = sends (Requests.kick login)
kick permission _ = Outcome.refused "expected only login"

abbrev pub info : ℕ → String → String → String → Info
info permission name argument_description description = record {
  permission = permission;
  name = name;
  argument_description = argument_description;
  description = description;
}

abbrev asks : Request → List Effect
asks request = Effect.send request ∷ []

-- The entries of `init` but `help`, which shows them.
abbrev client_commands : List (Info × Impl)
client_commands =
    (
      info Permissions.guest "signin" "login password" "sign in the system",
      pair_of "expected only login and password" (λ a b. sends (Requests.login a b)),
    )
    ∷ (
      info Permissions.wait "signout" "" "sign out from the system",
      no_arguments "unexpected logout arguments" (asks Requests.logout),
    )
    ∷ (info Permissions.wait "join" "name [password]" "join to the table", table_of Requests.join)
    ∷ (
      info Permissions.staff "create" "name [password]" "create the table",
      table_of Requests.create,
    )
    ∷ (
      info Permissions.play "leave" "" "leave from the table",
      no_arguments "unexpected leave arguments" (asks Requests.leave),
    )
    ∷ (
      info Permissions.wait "tables" "" "show a list of the tables",
      no_arguments "unexpected list arguments" (asks Requests.tables),
    )
    ∷ (
      info Permissions.play "users" "" "show a list of users at the table",
      no_arguments "unexpected users arguments" (asks Requests.users),
    )
    ∷ (
      info Permissions.play "write" "[login] message" "write a message into users at the table",
      write,
    )
    ∷ (
      info Permissions.all "disconnect" "" "disconnect from the server",
      no_arguments "unexpected disconnect arguments"
          (Effect.send Requests.disconnect ∷ Effect.stop ∷ []),
    )
    ∷ (
      info Permissions.auth "sync" "" "synchronize permissions in the system",
      no_arguments "unexpected sync arguments" (asks Requests.sync),
    )
    ∷ (
      info Permissions.guest "signup" "login password" "signup in the system",
      pair_of "expected only login and password" (λ a b. sends (Requests.registration a b)),
    )
    ∷ (
      info Permissions.admin "set" "login permission" "set permissions from user in the system",
      set_permission,
    )
    ∷ (
      info Permissions.croupier "spin" "" "spin roulette",
      no_arguments "unexpected spin arguments" (asks Requests.spin),
    )
    ∷ (info Permissions.player "bet" "type number value" "make bet", bet)
    ∷ (
      info Permissions.play "bets" "" "get bets of all users",
      no_arguments "unexpected bets arguments" (asks Requests.bets),
    )
    ∷ (
      info Permissions.auth "balance" "" "get balance",
      no_arguments "unexpected balance arguments" (asks Requests.balance),
    )
    ∷ (info Permissions.croupier "kick" "login" "kick player", kick)
    ∷ (
      info Permissions.play "list" "" "show list of bet types",
      no_arguments "unexpected list arguments" (Effect.show_bets Bets.bets ∷ []),
    )
    ∷ []

abbrev pub infos : {A : Type 0} → List (Info × A) → List Info
infos [] = []
infos ((i, _) ∷ commands) = i ∷ infos commands

abbrev help_info : Info
help_info = info Permissions.all "help" "" "show help"

abbrev help : Impl
help permission arguments =
    no_arguments "unexpected help arguments"
      (Effect.show_commands (get_commands_info permission (help_info ∷ infos client_commands)) ∷ [])
      permission arguments

-- `ClientCommands::init`
abbrev pub commands : List (Info × Impl)
commands = (help_info, help) ∷ client_commands

abbrev pub same_word : Word → Word → Bool
same_word [] [] = true
same_word (a ∷ s) (b ∷ t) = a == b && same_word s t
same_word _ _ = false

unfoldable pub find_command : {A : Type 0} → Word → List (Info × A) → Option (Info × A)
find_command name [] = none
find_command name ((i, impl) ∷ rest) =
    let found = find_command name rest in
    if same_word (codes i.name) name then some (i, impl) else found

-- `Commands::execute`
unfoldable pub execute : ℕ → Word → List Word → Outcome
unfolding find_command
execute permission [] arguments = Outcome.done []
execute permission (ch ∷ name) arguments = elim (find_command (ch ∷ name) commands) [
  | none ↦ Outcome.refused "command hasn't recognized"
  | some (i, impl) ↦
      if allows permission i.permission
      then impl permission arguments
      else Outcome.refused "execute permission denied"
]

abbrev with_words : ℕ → List Word → Outcome
with_words permission [] = Outcome.uncaught
with_words permission (name ∷ arguments) = execute permission name arguments

-- `Commands::parse_and_execute`
unfoldable pub parse_and_execute : ℕ → Word → Outcome
unfolding parse
parse_and_execute permission raw_command = with_words permission (parse raw_command)

-- `Client::session_output` on a line of the input: what the command does and what is printed of the
-- errors that are caught; `none` if another exception ends the thread.
unfoldable pub session_output : ℕ → Word → Option (List Effect × List String)
unfolding parse_and_execute
session_output permission command = elim (parse_and_execute permission command) [
  | Outcome.done effects ↦ some (effects, [])
  | Outcome.refused message ↦ some ([], message ∷ [])
  | Outcome.uncaught ↦ none
]
