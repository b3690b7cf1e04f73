-- ===== src/Server/Leaving.antt =====
-- Leaving a table (src/core/Server.cpp, `leave_player`, `leave_croupier`).
use asinc_roulette.Base.{
  ℕ, String, ◌≡◌, sym, ap, ◌∙◌, none, arith, ◌==◌, nat_eq, string_eq, subst, ==_refl, if◌then◌else◌,
}
use asinc_roulette.Base.Map.{lookup, erase, lookup-erase}
use asinc_roulette.Failure.{Result, ok, err}
use asinc_roulette.Storage.{Sqlite}
use asinc_roulette.Server.State.{
  Server, Table, Action, Content, modify, send, for_each, continue, pure, ◌>>=◌,
}
use asinc_roulette.Server.Keeps.{Keeps, Keeps-bind, Keeps-send, keeps_rules}
use asinc_roulette.Server.Users.{get_user, get_login, get_id, add_user, local_set_user_permission}
use asinc_roulette.Server.Seating.{get_session, leave_player, leave_croupier, back_to_hall}

-- If `m` returns, then `P` holds, whatever the state was before.
record Ensures {D A : Type 0} (P : Server D → Type 0) (m : Action D A) : Type 0 where
  at : (s : Server D) (a : A) → (m s).0 ≡ ok a → P (m s).1

module _ {D A B : Type 0} {P : Server D → Type 0} where
  continue-at :
      (r : Result A) (f : A → Action D B) (s : Server D) (b : B)
      → ((x : A) → Ensures P (f x))
      → (continue r f s).0 ≡ ok b
      → P (continue r f s).1
  continue-at (ok x) f s b h e = (h x).at s b e
  continue-at (err x) f s b h e = cc

  Ensures-bind :
      (m : Action D A) (f : A → Action D B) → ((x : A) → Ensures P (f x)) → Ensures P (m >>= f)
  unfolding ◌>>=◌
  Ensures-bind m f h = record { at = λ s b e. continue-at (m s).0 f (m s).1 b h e }

module _ {D B : Type 0} {P : Server D → Type 0} where
  Ensures-modify :
      (g : Server D → Server D) (f : Unit → Action D B)
      → ((s : Server D) → P (g s))
      → Keeps P (f tt)
      → Ensures P (modify g >>= f)
  unfolding modify ◌>>=◌
  Ensures-modify g f h k = record { at = λ s b e. k.at (g s) (h s) }

-- There is no table of that name.
abbrev IsClosed : {D : Type 0} → String → Server D → Type 0
IsClosed name s = lookup name s.sessions ≡ none

module _ {D : Type 0} ⦃sql : Sqlite D⦄ (name : String) where
  get_login-IsClosed : (id : ℕ) → Keeps (IsClosed {D = D} name) (get_login id)
  unfolding get_login get_user
  get_login-IsClosed id = search keeps_rules

  set-IsClosed :
      (id permission : ℕ) → Keeps (IsClosed {D = D} name) (local_set_user_permission id permission)
  unfolding local_set_user_permission get_user add_user
  set-IsClosed id permission = search keeps_rules depth 8

  send-IsClosed :
      (id : ℕ) (status command : String) (content : Content)
      → Keeps (IsClosed {D = D} name) (send id status command content)
  send-IsClosed id status command content = Keeps-send id status command content (λ s out h. h)

  back_to_hall-IsClosed :
      (id : ℕ) (login : String) → Keeps (IsClosed {D = D} name) (back_to_hall id login)
  unfolding back_to_hall
  back_to_hall-IsClosed id login = search (keeps_rules, set-IsClosed, send-IsClosed) depth 8

module _ {D : Type 0} ⦃sql : Sqlite D⦄ (id : ℕ) where
  -- What `leave_croupier` does with the table that it has found.
  abbrev close_table : String × Table → Action D Unit
  close_table (key, session) =
      for_each session.users
        (λ login. if login == session.croupier then pure tt else (get_id login >>= leave_player))
      >>= λ _. modify (λ s. record s { sessions = erase session.name s.sessions }) >>= λ _.
          get_login id >>= λ login. back_to_hall id login

  close_table-Ensures :
      (key : String) (t : Table) → Ensures (IsClosed t.name) (close_table (key, t))
  close_table-Ensures key t = Ensures-bind _ _ λ _.
      Ensures-modify _ _
        (λ s. lookup-erase t.name t.name s.sessions ∙ ground (arith, ==_refl t.name))
        (Keeps-bind _ _ (get_login-IsClosed t.name id) (back_to_hall-IsClosed t.name id))

  -- When a croupier has left, and nothing was thrown, the table is closed.
  pub leave_croupier-closes :
      (key : String) (t : Table) (s : Server D)
      → get_session id s ≡ (ok (key, t), s)
      → (leave_croupier id s).0 ≡ ok tt
      → lookup t.name (leave_croupier id s).1.sessions ≡ none
  unfolding leave_croupier ◌>>=◌
  leave_croupier-closes key t s found left =
      let e : leave_croupier id s ≡ close_table (key, t) s =
        ap (λ p. continue p.0 close_table p.1) found in
      subst (λ p. lookup t.name p.1.sessions ≡ none) (sym e)
        ((close_table-Ensures key t).at s tt (ap (λ p. p.0) (sym e) ∙ left))
