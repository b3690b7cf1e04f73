-- ===== src/Server/Soundness.antt =====
-- The tables of the game stay sound, whatever the clients send (src/core/Server.cpp).
pub mod Commands
pub mod Events
use asinc_roulette.Base.{
  ℕ, suc, ◌+◌, ◌≤◌, String, ◌≡◌, ◌≢◌, refl, Bool, true, false, not, List, [], ◌∷◌, ◌++◌, Option,
  none, some, arith, ◌==◌, nat_eq, string_eq, ==_refl, contains, emplace, erase_key, length,
  length-erase_key, length-emplace, contains-emplace_other, contains-erase_key_ne, ◌∙◌, All,
  Bool-cases, Option-cases, subst, inl, inr, if◌then◌else◌,
}
use asinc_roulette.Base.Map.{Map, lookup, insert, erase, lookup-All, insert-All, erase-All}
use asinc_roulette.Failure.{ok, err}
use asinc_roulette.Handlers.{Handlers, select}
use asinc_roulette.Json.{Json}
use asinc_roulette.Roulette.Bets.{Bet}
use asinc_roulette.Storage.{Sqlite, User}
use asinc_roulette.Server.State.{
  Server, Table, Action, Answer, Content, pure, throw, lift, gets, or_throw, throw_if, modify, send,
  for_each, ◌>>=◌, ◌>>◌,
}
use asinc_roulette.Server.Keeps.{
  Keeps, Keeps-bind, Keeps-bind-gets, Keeps-bind-or_throw, Keeps-bind-post, Keeps-bind-throw_if,
  Keeps-send, Keeps-if, Keeps-modify, keeps_rules,
}
use asinc_roulette.Server.Users.{
  get_user, get_login, get_permission, get_id, add_user, remove_user, local_set_user_permission,
}
use asinc_roulette.Server.Seating.{
  max_players, get_session_name, get_session, set_session, add_player, add_croupier, back_to_hall,
  leave_player, leave_croupier,
}

-- A table is filed under its name, seats its croupier, and seats no more than its limit, which is
-- the server's.
pub record IsSoundTable (key : String) (t : Table) : Type 0 where
  pub filed : t.name ≡ key
  pub seated : contains t.croupier t.users ≡ true
  pub fits : length t.users ≤ t.max_players
  pub limit : t.max_players ≡ max_players

-- A player is seated only where there is room.
joined-IsSound :
    (key login : String) (t : Table)
    → IsSoundTable key t
    → (t.max_players == length t.users) ≡ false
    → IsSoundTable key (record t { users = emplace login t.users })
joined-IsSound key login t h free = record {
  filed = h.filed;
  seated = contains-emplace_other t.croupier login t.users h.seated;
  fits = ground (arith, h.fits, length-emplace login t.users);
  limit = h.limit;
}

opened-IsSound :
    (name password login : String)
    → IsSoundTable name (record {
      name = name;
      password = password;
      croupier = login;
      users = login ∷ [];
      max_players = max_players;
      bets = [];
    })
unfolding contains
opened-IsSound name password login = record {
  filed = refl;
  seated = ground (arith, ==_refl login);
  fits = omega arith;
  limit = refl;
}

left-IsSound :
    (key login : String) (t : Table)
    → IsSoundTable key t
    → (t.croupier == login) ≡ false
    → IsSoundTable key (record t { users = erase_key login t.users; bets = erase login t.bets })
left-IsSound key login t h other = record {
  filed = h.filed;
  seated = contains-erase_key_ne t.croupier login t.users other ∙ h.seated;
  fits = omega (arith, h.fits, length-erase_key login t.users);
  limit = h.limit;
}

abbrev pub IsSound : {D : Type 0} → Server D → Type 0
IsSound s = All (λ (en : String × Table). IsSoundTable en.0 en.1) s.sessions

abbrev pub KeepsSound : {D A : Type 0} → Action D A → Type 0
KeepsSound {D} m = Keeps (IsSound {D = D}) m

module _ {D : Type 0} where
  pub send-IsSound :
      (id : ℕ) (status command : String) (content : Content)
      → KeepsSound {D = D} (send id status command content)
  send-IsSound id status command content = Keeps-send id status command content (λ s out h. h)

  pub get_user-IsSound : (id : ℕ) → KeepsSound {D = D} (get_user id)
  unfolding get_user
  get_user-IsSound id = search keeps_rules

  pub get_login-IsSound : (id : ℕ) → KeepsSound {D = D} (get_login id)
  unfolding get_login
  get_login-IsSound id = search (keeps_rules, get_user-IsSound)

  pub get_permission-IsSound : (id : ℕ) → KeepsSound {D = D} (get_permission id)
  unfolding get_permission
  get_permission-IsSound id = search (keeps_rules, get_user-IsSound)

  pub get_id-IsSound : (login : String) → KeepsSound {D = D} (get_id login)
  unfolding get_id
  get_id-IsSound login = search keeps_rules

  pub add_user-IsSound : (id : ℕ) (user : User) → KeepsSound {D = D} (add_user id user)
  unfolding add_user
  add_user-IsSound id user = Keeps-modify _ (λ s h. h)

  pub remove_user-IsSound : (id : ℕ) → KeepsSound {D = D} (remove_user id)
  unfolding remove_user
  remove_user-IsSound id =
      Keeps-bind _ _ (get_login-IsSound id) (λ login. Keeps-modify _ (λ s h. h))

  pub local_set-IsSound :
      (id permission : ℕ) → KeepsSound {D = D} (local_set_user_permission id permission)
  unfolding local_set_user_permission
  local_set-IsSound id permission = search (keeps_rules, get_user-IsSound, add_user-IsSound)

  pub get_session_name-IsSound : (id : ℕ) → KeepsSound {D = D} (get_session_name id)
  unfolding get_session_name
  get_session_name-IsSound id = search keeps_rules

  pub get_session-post :
      (id : ℕ) (s : Server D)
      → IsSound s
      → IsSound (get_session id s).1
        × ((found : String × Table)
            → (get_session id s).0 ≡ ok found
            → IsSoundTable found.0 found.1)
  unfolding get_session ◌>>=◌
  get_session-post id s h = elim (Option-cases (lookup id s.id2name)) [
    | inl e ↦ rw e (h, λ found p. cc)
    | inr (name, e) ↦ elim (Option-cases (lookup name s.sessions)) [
      | inl e' ↦ rw (e, e') (h, λ found p. cc)
      | inr (t, e') ↦
          rw (e, e')
            (
              h,
              λ found p.
                  let same : (name, t) ≡ found = cc in
                  subst (λ f. IsSoundTable f.0 f.1) same
                    (lookup-All (λ (en : String × Table). IsSoundTable en.0 en.1) name s.sessions h
                      e'),
            )
    ]
  ]

  pub set_session-IsSound :
      (key : String) (t : Table) → IsSoundTable key t → KeepsSound {D = D} (set_session key t)
  unfolding set_session
  set_session-IsSound key t h = Keeps-modify _ λ s k.
      insert-All (λ (en : String × Table). IsSoundTable en.0 en.1) key t s.sessions k
        (λ j e. subst (λ i. IsSoundTable i t) e h)

  pub add_player-IsSound :
      (id : ℕ) (name password : String) → KeepsSound {D = D} (add_player id name password)
  unfolding add_player
  add_player-IsSound id name password = Keeps-bind-gets _ _ λ s h.
      Keeps-bind-or_throw (lookup name s.sessions) _ _ λ t e.
        let sound =
          lookup-All (λ (en : String × Table). IsSoundTable en.0 en.1) name s.sessions h e in
        Keeps-bind-throw_if _ _ _ λ free.
          let seat = λ (login : String).
            set_session-IsSound name _ (joined-IsSound name login t sound free) in
          search (keeps_rules, get_login-IsSound, local_set-IsSound, seat) depth 8

  pub add_croupier-IsSound :
      (id : ℕ) (name password : String) → KeepsSound {D = D} (add_croupier id name password)
  unfolding add_croupier
  add_croupier-IsSound id name password =
      let seat =
        λ (login : String). set_session-IsSound name _ (opened-IsSound name password login) in
      search (keeps_rules, get_login-IsSound, local_set-IsSound, seat) depth 8

module _ {D : Type 0} ⦃sql : Sqlite D⦄ where
  pub back_to_hall-IsSound : (id : ℕ) (login : String) → KeepsSound {D = D} (back_to_hall id login)
  unfolding back_to_hall
  back_to_hall-IsSound id login = search (keeps_rules, local_set-IsSound, send-IsSound) depth 8

  pub leave_player-IsSound : (id : ℕ) → KeepsSound {D = D} (leave_player id)
  unfolding leave_player
  leave_player-IsSound id =
      Keeps-bind-post (λ found. IsSoundTable found.0 found.1) (get_session id) _
        (get_session-post id)
        λ found sound. Keeps-bind _ _ (get_login-IsSound id) λ login.
          Keeps-bind-throw_if _ _ _ λ other.
            Keeps-bind _ _
              (set_session-IsSound found.0 _ (left-IsSound found.0 login found.1 sound other))
              λ _. back_to_hall-IsSound id login

  pub leave_croupier-IsSound : (id : ℕ) → KeepsSound {D = D} (leave_croupier id)
  unfolding leave_croupier
  leave_croupier-IsSound id =
      let closed = λ (name : String).
        Keeps-modify (λ (s : Server D). record s { sessions = erase name s.sessions })
          (λ s h. erase-All (λ (en : String × Table). IsSoundTable en.0 en.1) name s.sessions h) in
      Keeps-bind-post (λ found. IsSoundTable found.0 found.1) (get_session id) _
        (get_session-post id)
        λ found sound.
          search
            (
              keeps_rules, get_id-IsSound, leave_player-IsSound, closed, get_login-IsSound,
              back_to_hall-IsSound,
            )
            depth 8
