-- ===== src/Console.antt =====
-- The commands at the console of a server (src/simple/SimpleServerCommands.h), on the stream server.
pub mod Killing
mod Tests
use asinc_roulette.Base.{
  ℕ, String, ◌||◌, nat_eq, List, [], ◌∷◌, Option, none, some, map, if◌then◌else◌,
}
use asinc_roulette.Base.Int.{pos, ltb_ℤ, pos_part}
use asinc_roulette.Failure.{ok}
use asinc_roulette.Stateful.{Action, for_each, continue}
use asinc_roulette.Permissions
use asinc_roulette.Permissions.{allows}
use asinc_roulette.Client.Words.{Word, codes, str2int, Number, parse}
use asinc_roulette.Client.Commands.{Info, info, infos, get_commands_info, find_command}
use asinc_roulette.Session.Client.{same_bytes}
use asinc_roulette.Transfer.Framing.{Bytes}
use asinc_roulette.Transfer.StreamServer.State.{StreamSocket, TransferServer, Events}
use asinc_roulette.Transfer.StreamServer.Connections.{
  stop, kill, get_connections, broadcast, send_all,
}

-- A command is done, is refused with a message, shows something, or throws what nobody catches.
pub data Reply : Type 0 where
  done uncaught : Reply
  refused : String → Reply
  show_list : List (ℕ × Bytes) → Reply
  show_commands : List Info → Reply

-- A number that is not negative.
pub data Identifier : Type 0 where
  id : ℕ → Identifier
  no_id overflow : Identifier

abbrev pub to_id : Word → Identifier
to_id word = elim (str2int word) [
  | Number.uncaught ↦ overflow
  | Number.no_number ↦ no_id
  | Number.number n ↦ if ltb_ℤ n (pos 0) then no_id else id (pos_part n)
]

-- The ids among the words: a word that is none is reported and left out.
unfoldable pub ids_of : List Word → Option (List ℕ)
unfolding str2int
ids_of [] = some []
ids_of (word ∷ words) = elim (to_id word) [
  | overflow ↦ none
  | no_id ↦ ids_of words
  | id i ↦ elim (ids_of words) [ none ↦ none | some ids ↦ some (i ∷ ids) ]
]

-- All words but the last, which is the message.
abbrev pub but_last : Word → List Word → List Word
but_last word [] = []
but_last word (next ∷ words) = word ∷ but_last next words

abbrev pub last : Word → List Word → Word
last word [] = word
last word (next ∷ words) = last next words

module _ {K W : Type 0} ⦃net : StreamSocket K⦄ (events : Events W) where
  unfoldable pub kill_ids : List ℕ → Action (TransferServer K W) Unit
  unfolding kill for_each
  kill_ids ids s = for_each (kill events) ids s

  -- The loop over the arguments: what was killed before an argument that is refused stays killed.
  unfoldable pub kill_arguments : List Word → Action (TransferServer K W) Reply
  unfolding kill_ids kill for_each str2int get_connections
  kill_arguments [] s = (ok done, s)
  kill_arguments (word ∷ words) s = elim (to_id word) [
    | overflow ↦ (ok uncaught, s)
    | id i ↦ let (r, s') = kill events i s in continue r (λ _. kill_arguments words) s'
    | no_id ↦
        let all = map (λ (en : ℕ × Bytes). en.0) (get_connections s) in
        let (r, s') = kill_ids all s in
        if same_bytes word (codes "--all") || same_bytes word (codes "-a")
        then continue r (λ _. kill_arguments words) s'
        else (ok (refused "kill argument hasn't recognized"), s)
  ]

  unfoldable pub command_kill : List Word → Action (TransferServer K W) Reply
  unfolding kill_arguments
  command_kill [] s = (ok (refused "expected kill argument"), s)
  command_kill (word ∷ words) s = kill_arguments (word ∷ words) s

module _ {K W : Type 0} ⦃net : StreamSocket K⦄ where
  unfoldable pub command_shutdown : List Word → Action (TransferServer K W) Reply
  unfolding stop
  command_shutdown [] s = (ok done, stop s)
  command_shutdown (word ∷ words) s = (ok (refused "unexpected shutdown arguments"), s)

  unfoldable pub command_list : List Word → Action (TransferServer K W) Reply
  unfolding get_connections
  command_list [] s = (ok (show_list (get_connections s)), s)
  command_list (word ∷ words) s = (ok (refused "unexpected list arguments"), s)

  -- A message alone goes to everybody.
  unfoldable pub command_send : List Word → Action (TransferServer K W) Reply
  unfolding broadcast send_all ids_of
  command_send [] s = (ok (refused "expected kill argument"), s)
  command_send (message ∷ []) s =
      let (r, s') = broadcast message s in continue r (λ _ t. (ok done, t)) s'
  command_send (word ∷ next ∷ words) s = elim (ids_of (but_last word (next ∷ words))) [
    | none ↦ (ok uncaught, s)
    | some ids ↦
        let (r, s') = send_all ids (last next words) s in continue r (λ _ t. (ok done, t)) s'
  ]

abbrev help_info : Info
help_info = info Permissions.admin "help" "" "show help"

-- What a command does with the permission and the arguments.
abbrev pub ConsoleImpl : Type 0 → Type 0 → Type 0
ConsoleImpl K W = ℕ → List Word → Action (TransferServer K W) Reply

module _ {K W : Type 0} ⦃net : StreamSocket K⦄ (events : Events W) where
  -- The entries of the constructor but `help`, which shows them.
  abbrev other_commands : List (Info × ConsoleImpl K W)
  other_commands =
      (
        info Permissions.admin "shutdown" "" "shutdown server",
        λ permission arguments. command_shutdown arguments,
      )
      ∷ (
        info Permissions.admin "kill" "[id...] [-a] [--all]" "kill clients with specified ids",
        λ permission arguments. command_kill events arguments,
      )
      ∷ (
        info Permissions.admin "list" "" "show list of connected clients",
        λ permission arguments. command_list arguments,
      )
      ∷ (
        info Permissions.admin "send" "[id... ] message"
            "send message to client with specified ids",
        λ permission arguments. command_send arguments,
      )
      ∷ []

  abbrev command_help : ConsoleImpl K W
  command_help permission [] s =
      (ok (show_commands (get_commands_info permission (help_info ∷ infos other_commands))), s)
  command_help permission (word ∷ words) s = (ok (refused "unexpected help arguments"), s)

  -- The constructor of `SimpleServerCommands`.
  abbrev pub console_commands : List (Info × ConsoleImpl K W)
  console_commands = (help_info, command_help) ∷ other_commands

  -- `Commands::execute`
  unfoldable pub console_execute : ℕ → Word → List Word → Action (TransferServer K W) Reply
  unfolding find_command command_kill command_shutdown command_list command_send get_commands_info
  console_execute permission [] arguments s = (ok done, s)
  console_execute permission (ch ∷ name) arguments s =
      elim (find_command (ch ∷ name) console_commands) [
        | none ↦ (ok (refused "command hasn't recognized"), s)
        | some (i, impl) ↦
            if allows permission i.permission
            then impl permission arguments s
            else (ok (refused "execute permission denied"), s)
      ]

  abbrev words_of_line : ℕ → List Word → Action (TransferServer K W) Reply
  words_of_line permission [] s = (ok uncaught, s)
  words_of_line permission (name ∷ arguments) s = console_execute permission name arguments s

  -- `Commands::parse_and_execute`, on a line of the console
  unfoldable pub console_line : ℕ → Word → Action (TransferServer K W) Reply
  unfolding parse
  console_line permission raw_command s = words_of_line permission (parse raw_command) s
