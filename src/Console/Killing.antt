-- ===== src/Console/Killing.antt =====
-- `kill --all` at the console of a server (src/simple/SimpleServerCommands.h).
use asinc_roulette.Base.{
  ℕ, ◌≡◌, refl, sym, ap, ◌∙◌, subst, false, nat_eq, List, [], ◌∷◌, some, map, contains, All,
}
use asinc_roulette.Base.Map.{lookup}
use asinc_roulette.Failure.{Result, ok, err}
use asinc_roulette.Stateful.{for_each, continue}
use asinc_roulette.Permissions
use asinc_roulette.Client.Words.{
  codes, str2int, stoi, ltrim, rtrim, trim_copy, parse, parse_loop, parse_step,
}
use asinc_roulette.Client.Commands.{find_command}
use asinc_roulette.Transfer.Framing.{Bytes}
use asinc_roulette.Transfer.StreamServer.State.{StreamSocket, Connection, TransferServer, Events}
use asinc_roulette.Transfer.StreamServer.Connections.{kill, get_connections, get_connections_of}
use asinc_roulette.Transfer.StreamServer.Ending.{IsEmptied, kill_each-contains}
use asinc_roulette.Console.{
  Reply, done, kill_ids, kill_arguments, command_kill, console_execute, console_line,
}

module _ {K W : Type 0} ⦃net : StreamSocket K⦄ (events : Events W) where
  abbrev ids_shown : List ℕ → TransferServer K W → List ℕ
  ids_shown ids s = map (λ (en : ℕ × Bytes). en.0) (get_connections_of ids s)

  abbrev HasObject : TransferServer K W → ℕ → Type 0
  HasObject s id = (c : Connection K) × (lookup id s.heap ≡ some c)

  -- Connections that have their objects are all in the list.
  ids_shown-all :
      (ids : List ℕ) (s : TransferServer K W) → All (HasObject s) ids → ids_shown ids s ≡ ids
  unfolding get_connections_of
  ids_shown-all [] s h = refl
  ids_shown-all (id ∷ ids) s ((c, found), h) =
      rw (get_connections_of, found) (ap (◌∷◌ id) (ids_shown-all ids s h))

  -- The answer of the command.
  then_done : Result Unit × TransferServer K W → Result Reply × TransferServer K W
  then_done (r, s) = continue r (λ _ t. (ok done, t)) s

  kill_all :
      (s : TransferServer K W)
      → console_line events Permissions.admin (codes "kill --all") s
        ≡ then_done (kill_ids events (ids_shown s.connections s) s)
  unfolding console_line parse trim_copy ltrim rtrim parse_loop parse_step console_execute
      find_command command_kill kill_arguments str2int stoi get_connections then_done
  kill_all s = refl

  then_done-IsEmptied :
      (p : Result Unit × TransferServer K W) (j : ℕ)
      → IsEmptied p
      → ((then_done p).0 ≡ ok done) × (contains j (then_done p).1.connections ≡ false)
  unfolding then_done
  then_done-IsEmptied (ok u, s) j h = (refl, h.1 j)
  then_done-IsEmptied (err e, s) j h = cc

  -- If disconnect_handle does not throw and every connection has its object, then the line
  -- "kill --all" at the console of an administrator is done and leaves no connection.
  pub kill_all-IsEmptied :
      (never : (id : ℕ) (w : W) → (events.disconnect_handle id w).0 ≡ ok tt)
      (s : TransferServer K W) (j : ℕ)
      → All (HasObject s) s.connections
      → let p = console_line events Permissions.admin (codes "kill --all") s in
        (p.0 ≡ ok done) × (contains j p.1.connections ≡ false)
  unfolding kill kill_ids for_each
  kill_all-IsEmptied never s j here =
      let emptied = kill_each-contains events never s.connections s (λ i among. among) in
      subst
        (λ (p : Result Reply × TransferServer K W).
          (p.0 ≡ ok done) × (contains j p.1.connections ≡ false))
        (sym (
          kill_all s
          ∙ ap (λ ids. then_done (kill_ids events ids s)) (ids_shown-all s.connections s here)))
        (then_done-IsEmptied (kill_ids events s.connections s) j emptied)
