-- ===== src/Server/Visiting.antt =====
-- A player who joins a table and leaves it again (src/core/Server.cpp, `do_join`, `do_leave`).
use asinc_roulette.Base.{
  ℕ, String, ◌≡◌, refl, sym, ap, ◌∙◌, true, false, List, [], ◌∷◌, ◌++◌, none, some, arith, ◌==◌,
  ==_refl, nat_eq, string_eq, contains, emplace, erase_key, length, inl, inr, Bool-cases,
  if◌then◌else◌,
}
use asinc_roulette.Base.Map.{Map, lookup, insert, erase, lookup-insert}
use asinc_roulette.Failure.{ok}
use asinc_roulette.Permissions
use asinc_roulette.Roulette.Bets.{Bet}
use asinc_roulette.Storage.{Sqlite, User, get_user_permission}
use asinc_roulette.Server.State.{Server, Table, Answer, Content, Link, send, ◌>>=◌}
use asinc_roulette.Server.Users.{
  get_user, get_login, get_permission, add_user, local_set_user_permission,
}
use asinc_roulette.Server.Seating.{
  get_session_name, get_session, set_session, add_player, leave_player, back_to_hall,
}
use asinc_roulette.Server.Requests.{do_join, do_leave, leave_by}

-- A user at a connection may sit down at a table: there is room, the table has its croupier and
-- knows nothing of the user yet, and messages reach the connection.
pub record IsGuest {D : Type 0} (id : ℕ) (name : String) (t : Table) (u : User) (s : Server D)
    : Type 0 where
  pub there : lookup name s.sessions ≡ some t
  pub free : (t.max_players == length t.users) ≡ false
  pub known : lookup id s.users ≡ some u
  pub croupier : contains t.croupier t.users ≡ true
  pub newcomer : contains u.login t.users ≡ false
  pub betless : lookup u.login t.bets ≡ none
  pub client : contains id s.clients ≡ true
  pub link : s.links id ≡ Link.up

abbrev answer : ℕ → String → ℕ → Answer
answer id command permission = record {
  to = id;
  status = "success";
  command = command;
  content = Content.permission permission;
}

-- The entry that was just written is found.
found_again :
    {V : Type 0} (k : String) (v : V) (m : Map String V) → lookup k (insert k v m) ≡ some v
found_again k v m = lookup-insert k k v m ∙ ground (arith, ==_refl k)

found_at : {V : Type 0} (k : ℕ) (v : V) (m : Map ℕ V) → lookup k (insert k v m) ≡ some v
found_at k v m = lookup-insert k k v m ∙ ground (arith, ==_refl k)

erase_absent :
    (login : String) (users : List String)
    → contains login users ≡ false
    → erase_key login users ≡ users
unfolding erase_key contains
erase_absent login [] h = refl
erase_absent login (x ∷ users) h = ground (arith, erase_absent login users)

erase_first :
    (login : String) (users : List String)
    → contains login users ≡ false
    → erase_key login (login ∷ users) ≡ users
unfolding erase_key
erase_first login users h = rw (==_refl login) (erase_absent login users h)

unbet :
    (login : String) (bets : Map String (List Bet))
    → lookup login bets ≡ none
    → erase login bets ≡ bets
unfolding erase lookup
unbet login [] h = refl
unbet login ((j, w) ∷ bets) h = ground (arith, unbet login bets)

-- An entry that is overwritten and put back.
put_back :
    {V : Type 0} (k other : String) (v w : V) (m : Map String V)
    → lookup k m ≡ some v
    → lookup other (insert k v (insert k w m)) ≡ lookup other m
put_back k other v w m h =
    lookup-insert k other v (insert k w m)
    ∙ ap (λ o. if other == k then some v else o) (lookup-insert k other w m)
    ∙ (elim (Bool-cases (other == k)) [
      | inl same ↦
          let e : other ≡ k = ground (arith, string_eq.beq_iff other k) in
          rw same (sym h ∙ ap (λ l. lookup l m) (sym e))
      | inr differs ↦ rw differs refl
    ])

module _ {D : Type 0} (id : ℕ) (name : String) (t : Table) (u : User) where
  abbrev joined : Server D → Server D
  joined s =
      let user : User = record u { permission = Permissions.player } in
      record s {
        id2name = insert id name s.id2name;
        sessions = insert name (record t { users = u.login ∷ t.users }) s.sessions;
        login2id = insert u.login id s.login2id;
        users = insert id user s.users;
        outbox = s.outbox ++ answer id "join" Permissions.player ∷ [];
      }

  do_join-joined :
      (s : Server D) → IsGuest id name t u s → do_join id name t.password s ≡ (ok tt, joined s)
  unfolding do_join add_player get_login get_user set_session local_set_user_permission add_user
      emplace send ◌>>=◌
  do_join-joined s h =
      let same : (t.password == t.password) ≡ true = ==_refl t.password in
      rw (h.there, h.free, same, h.known, h.newcomer, h.known, h.client, h.link) refl

module _ {D : Type 0} ⦃sql : Sqlite D⦄ (id : ℕ) (name : String) (p : ℕ) where
  leave_player-leaves :
      (t : Table) (u : User) (s : Server D)
      → lookup id s.id2name ≡ some name
      → lookup name s.sessions ≡ some t
      → lookup id s.users ≡ some u
      → (t.croupier == u.login) ≡ false
      → get_user_permission s.data_base u.login ≡ ok p
      → contains id s.clients ≡ true
      → s.links id ≡ Link.up
      → let user : User = record u { permission = p } in
        let session : Table = record t {
          users = erase_key u.login t.users;
          bets = erase u.login t.bets;
        } in
        leave_player id s ≡ (
          ok tt,
          record s {
            sessions = insert name session s.sessions;
            login2id = insert u.login id s.login2id;
            users = insert id user s.users;
            outbox = s.outbox ++ answer id "leave" p ∷ [];
          },
        )
  unfolding leave_player get_session get_session_name get_login get_user set_session back_to_hall
      local_set_user_permission add_user send ◌>>=◌
  leave_player-leaves t u s named there known no_croupier stored client up =
      rw (named, there, known, no_croupier, stored, known, client, up) refl

module _ {D : Type 0} ⦃sql : Sqlite D⦄ (id : ℕ) (name : String) (t : Table) (u : User) (p : ℕ) where
  abbrev departed : Server D → Server D
  departed s =
      let player : User = record u { permission = p } in
      let s₁ = joined id name t u s in
      record s₁ {
        sessions = insert name t s₁.sessions;
        login2id = insert u.login id s₁.login2id;
        users = insert id player s₁.users;
        outbox = s₁.outbox ++ answer id "leave" p ∷ [];
      }

  other_croupier : (s : Server D) → IsGuest id name t u s → (t.croupier == u.login) ≡ false
  other_croupier s h = ground (arith, string_eq.beq_iff t.croupier u.login, h.croupier, h.newcomer)

  leave_player-departed :
      (s : Server D)
      → IsGuest id name t u s
      → get_user_permission s.data_base u.login ≡ ok p
      → leave_player id (joined id name t u s) ≡ (ok tt, departed s)
  leave_player-departed s h stored =
      leave_player-leaves id name p (record t { users = u.login ∷ t.users })
        (record u { permission = Permissions.player }) (joined id name t u s)
        (found_at id name s.id2name)
        (found_again name (record t { users = u.login ∷ t.users }) s.sessions)
        (found_at id (record u { permission = Permissions.player }) s.users) (other_croupier s h)
        stored h.client h.link
      ∙ rw (erase_first u.login t.users h.newcomer, unbet u.login t.bets h.betless) refl

  do_leave-departed :
      (s : Server D)
      → IsGuest id name t u s
      → get_user_permission s.data_base u.login ≡ ok p
      → do_leave id (joined id name t u s) ≡ (ok tt, departed s)
  unfolding do_leave leave_by get_permission leave_player get_session get_session_name get_login
      get_user set_session back_to_hall local_set_user_permission add_user send ◌>>=◌
  do_leave-departed s h stored =
      rw (found_at id (record u { permission = Permissions.player }) s.users)
        (leave_player-departed s h stored)

  -- If a user who is not at a table joins it with its password, where the table has room, its
  -- croupier and no bets of the user, and then leaves it, and messages reach the user and the data
  -- base knows the login, then both commands succeed, every table is as before, and the user has
  -- the permission that the data base has.
  pub do_join-do_leave :
      (s : Server D) (other : String)
      → IsGuest id name t u s
      → get_user_permission s.data_base u.login ≡ ok p
      → let sat = do_join id name t.password s in
        let left = do_leave id sat.1 in
        (sat.0 ≡ ok tt)
        × (left.0 ≡ ok tt)
        × (lookup other left.1.sessions ≡ lookup other s.sessions)
        × (lookup id left.1.users ≡ some (record u { permission = p }))
  do_join-do_leave s other h stored =
      let sat = do_join-joined id name t u s h in
      let left = ap (λ p. do_leave id p.1) sat ∙ do_leave-departed s h stored in
      (
        ap (λ p. p.0) sat,
        ap (λ p. p.0) left,
        ap (λ p. lookup other p.1.sessions) left
            ∙ put_back name other t (record t { users = u.login ∷ t.users }) s.sessions h.there,
        ap (λ p. lookup id p.1.users) left ∙ found_at id (record u { permission = p }) _,
      )
