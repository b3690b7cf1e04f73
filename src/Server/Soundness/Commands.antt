-- ===== src/Server/Soundness/Commands.antt =====
-- The commands `do_signin` to `do_kick` (src/core/Server.cpp) keep the tables sound.
use asinc_roulette.Base.{
  ℕ, String, Bool, List, [], ◌∷◌, All, Option-cases, inl, inr, string_eq, nat_eq, subst,
}
use asinc_roulette.Base.Map.{Map, lookup, lookup-All, insert-All}
use asinc_roulette.Roulette.Bets.{Bet}
use asinc_roulette.Storage.{Sqlite}
use asinc_roulette.Server.State.{Server, Table}
use asinc_roulette.Server.Keeps.{
  Keeps, Keeps-bind, Keeps-bind-gets, Keeps-bind-or_throw, Keeps-bind-post, Keeps-for_each,
  Keeps-throw_if, Keeps-modify, Keeps-pure, Keeps-lift, keeps_rules,
}
use asinc_roulette.Server.Seating.{get_session}
use asinc_roulette.Server.Game.{do_balance, do_bet, do_bets, clear_bets, pay, pay_player, do_spin}
use asinc_roulette.Server.Requests.{
  do_signin, do_signout, do_signup, do_join, do_create, leave_by, do_leave, do_write, do_write_to,
  do_tables, user_rows, do_users, do_sync, update_online, do_set_permission, do_kick, do_disconnect,
}
use asinc_roulette.Server.Soundness.{
  IsSoundTable, IsSound, KeepsSound, send-IsSound, get_user-IsSound, get_login-IsSound,
  get_permission-IsSound, get_id-IsSound, add_user-IsSound, remove_user-IsSound, local_set-IsSound,
  get_session-post, set_session-IsSound, add_player-IsSound, add_croupier-IsSound,
  leave_player-IsSound, leave_croupier-IsSound,
}

pub ruleset basics = (
  keeps_rules, send-IsSound, get_user-IsSound, get_login-IsSound, get_permission-IsSound,
  get_id-IsSound, add_user-IsSound, remove_user-IsSound, local_set-IsSound, add_player-IsSound,
  add_croupier-IsSound, leave_player-IsSound, leave_croupier-IsSound,
)

-- A bet changes no seat.
with_bets-IsSoundTable :
    (key : String) (t : Table) (b : Map String (List Bet))
    → IsSoundTable key t
    → IsSoundTable key (record t { bets = b })
with_bets-IsSoundTable key t b h = record {
  filed = h.filed;
  seated = h.seated;
  fits = h.fits;
  limit = h.limit;
}

clear_bets-IsSound :
    (key : String) (m : Map String Table)
    → All (λ (en : String × Table). IsSoundTable en.0 en.1) m
    → All (λ (en : String × Table). IsSoundTable en.0 en.1) (clear_bets key m)
unfolding clear_bets
clear_bets-IsSound key m h = elim (Option-cases (lookup key m)) [
  | inl e ↦ rw (e, All) h
  | inr (t, e) ↦
      let sound =
        with_bets-IsSoundTable key t []
          (lookup-All (λ (en : String × Table). IsSoundTable en.0 en.1) key m h e) in
      rw (e, All)
        (insert-All (λ (en : String × Table). IsSoundTable en.0 en.1) key _ m h
          (λ j same. subst (λ i. IsSoundTable i (record t { bets = [] })) same sound))
]

module _ {D : Type 0} where
  pub get_session-IsSound : (id : ℕ) → KeepsSound {D = D} (get_session id)
  get_session-IsSound id = record { at = λ s h. (get_session-post id s h).0 }

  pub do_balance-IsSound : (id : ℕ) → KeepsSound {D = D} (do_balance id)
  unfolding do_balance
  do_balance-IsSound id = search basics

  pub do_bets-IsSound : (id : ℕ) → KeepsSound {D = D} (do_bets id)
  unfolding do_bets
  do_bets-IsSound id = search (basics, get_session-IsSound)

  pub do_bet-IsSound : (id : ℕ) (bet : Bet) → KeepsSound {D = D} (do_bet id bet)
  unfolding do_bet
  do_bet-IsSound id bet = Keeps-bind _ _ (Keeps-lift _) λ _.
      Keeps-bind-post (λ found. IsSoundTable found.0 found.1) (get_session id) _
        (get_session-post id)
        λ found sound. Keeps-bind _ _ (get_user-IsSound id) λ user.
          Keeps-bind _ _ (Keeps-throw_if _ _) λ _.
            Keeps-bind _ _
              (set_session-IsSound found.0 _ (with_bets-IsSoundTable found.0 found.1 _ sound))
              λ _. send-IsSound id _ _ _

  pub do_write_to-IsSound :
      (id : ℕ) (login message : String) → KeepsSound {D = D} (do_write_to id login message)
  unfolding do_write_to
  do_write_to-IsSound id login message = search (basics, get_session-IsSound) depth 7

  pub do_write-IsSound : (id : ℕ) (message : String) → KeepsSound {D = D} (do_write id message)
  unfolding do_write
  do_write-IsSound id message = search (basics, get_session-IsSound, do_write_to-IsSound) depth 7

  pub do_tables-IsSound : (id : ℕ) → KeepsSound {D = D} (do_tables id)
  unfolding do_tables
  do_tables-IsSound id = search basics

  pub user_rows-IsSound : (users : List String) → KeepsSound {D = D} (user_rows users)
  unfolding user_rows
  user_rows-IsSound [] = search basics
  user_rows-IsSound (login ∷ users) = Keeps-bind _ _ (get_id-IsSound login) λ id.
      Keeps-bind _ _ (get_permission-IsSound id)
        λ permission. Keeps-bind _ _ (user_rows-IsSound users) λ rest. Keeps-pure _

  pub do_users-IsSound : (id : ℕ) → KeepsSound {D = D} (do_users id)
  unfolding do_users
  do_users-IsSound id = search (basics, get_session-IsSound, user_rows-IsSound) depth 7

  pub do_sync-IsSound : (id : ℕ) → KeepsSound {D = D} (do_sync id)
  unfolding do_sync
  do_sync-IsSound id = search basics

  pub do_join-IsSound :
      (id : ℕ) (name password : String) → KeepsSound {D = D} (do_join id name password)
  unfolding do_join
  do_join-IsSound id name password = search basics

  pub do_create-IsSound :
      (id : ℕ) (name password : String) → KeepsSound {D = D} (do_create id name password)
  unfolding do_create
  do_create-IsSound id name password = search basics

module _ {D : Type 0} ⦃sql : Sqlite D⦄ where
  pub do_signin-IsSound :
      (id : ℕ) (login password : String) → KeepsSound {D = D} (do_signin id login password)
  unfolding do_signin
  do_signin-IsSound id login password = search basics depth 8

  pub do_signout-IsSound : (id : ℕ) → KeepsSound {D = D} (do_signout id)
  unfolding do_signout
  do_signout-IsSound id = search basics depth 8

  pub do_signup-IsSound :
      (id : ℕ) (login password : String) → KeepsSound {D = D} (do_signup id login password)
  unfolding do_signup
  do_signup-IsSound id login password = search basics depth 8

  pub leave_by-IsSound : (permission id : ℕ) → KeepsSound {D = D} (leave_by permission id)
  unfolding leave_by
  leave_by-IsSound permission id = search basics

  pub do_leave-IsSound : (id : ℕ) → KeepsSound {D = D} (do_leave id)
  unfolding do_leave
  do_leave-IsSound id = search (basics, leave_by-IsSound)

  pub do_disconnect-IsSound : (id : ℕ) → KeepsSound {D = D} (do_disconnect id)
  unfolding do_disconnect
  do_disconnect-IsSound id = search (basics, leave_by-IsSound)

  pub update_online-IsSound :
      (login : String) (permission : ℕ) → KeepsSound {D = D} (update_online login permission)
  unfolding update_online
  update_online-IsSound login permission = search (basics, do_sync-IsSound)

  pub do_set_permission-IsSound :
      (id : ℕ) (login : String) (permission : ℕ)
      → KeepsSound {D = D} (do_set_permission id login permission)
  unfolding do_set_permission
  do_set_permission-IsSound id login permission = search (basics, update_online-IsSound) depth 9

  pub do_kick-IsSound : (id : ℕ) (login : String) → KeepsSound {D = D} (do_kick id login)
  unfolding do_kick
  do_kick-IsSound id login = search basics

  pub pay-IsSound :
      (id : ℕ) (bet : Bet) (is_positive : Bool) → KeepsSound {D = D} (pay id bet is_positive)
  unfolding pay
  pay-IsSound id bet is_positive = search basics depth 9

  pub pay_player-IsSound : (n : ℕ) (en : String × List Bet) → KeepsSound {D = D} (pay_player n en)
  unfolding pay_player
  pay_player-IsSound n (login, bets) = search (basics, pay-IsSound) depth 7

  pub do_spin-IsSound : (rand id : ℕ) → KeepsSound {D = D} (do_spin rand id)
  unfolding do_spin
  do_spin-IsSound rand id =
      let cleared = λ (key : String).
        Keeps-modify (λ (s : Server D). record s { sessions = clear_bets key s.sessions })
          (λ s h. clear_bets-IsSound key s.sessions h) in
      search (basics, get_session-IsSound, pay_player-IsSound, cleared) depth 7
