-- ===== src/Server/Writing.antt =====
-- Who gets a message to a table (src/core/Server.cpp, `do_write`).
use asinc_roulette.Base.{
  ℕ, String, ◌≡◌, refl, ap, ◌∙◌, true, List, [], ◌∷◌, ◌++◌, Option, none, some, arith, ◌==◌, nat_eq,
  string_eq, ==_refl, contains, All, Bool-cases, inl, inr, if◌then◌else◌,
}
use mathlib.Core.List.{append_assoc, append-nil}
use asinc_roulette.Base.Map.{Map, lookup}
use asinc_roulette.Failure.{ok}
use asinc_roulette.Storage.{User}
use asinc_roulette.Server.State.{
  Server, Table, Action, Answer, Content, Link, pure, send, for_each, continue, ◌>>=◌,
}
use asinc_roulette.Server.Users.{get_user, get_login, get_id}
use asinc_roulette.Server.Seating.{get_session_name, get_session}
use asinc_roulette.Server.Requests.{do_write, do_write_to}

-- The answer with a message of `from`.
abbrev pub note : String → String → ℕ → Answer
note from message to = record {
  to = to;
  status = "success";
  command = "write";
  content = Content.written from message;
}

abbrev note_unless : ℕ → String → String → Option ℕ → List Answer
note_unless id from message none = []
note_unless id from message (some to) = if id == to then [] else note from message to ∷ []

-- A note for each of the players but the one who writes.
abbrev pub notes : Map String ℕ → ℕ → String → String → List String → List Answer
notes login2id id from message [] = []
notes login2id id from message (login ∷ users) =
    note_unless id from message (lookup login login2id) ++ notes login2id id from message users

-- The player is logged in, and messages reach the connection.
pub record IsReached (login2id : Map String ℕ) (clients : List ℕ) (links : ℕ → Link)
    (login : String) : Type 0 where
  pub id : ℕ
  pub known : lookup login login2id ≡ some id
  pub client : contains id clients ≡ true
  pub link : links id ≡ Link.up

within :
    (ys xs : List String)
    → ((l : String) → contains l xs ≡ true → contains l ys ≡ true)
    → All (λ l. contains l ys ≡ true) xs
unfolding contains
within ys [] f = tt
within ys (x ∷ xs) f = (f x (ground (arith, ==_refl x)), within ys xs (λ l h. f l (ground arith)))

module _ {D : Type 0} (id : ℕ) (message key : String) (table : Table) (u : User) where
  do_write_to-reached :
      (login : String) (to : ℕ) (s : Server D)
      → lookup id s.id2name ≡ some key
      → lookup key s.sessions ≡ some table
      → lookup id s.users ≡ some u
      → contains login table.users ≡ true
      → lookup login s.login2id ≡ some to
      → contains to s.clients ≡ true
      → s.links to ≡ Link.up
      → do_write_to id login message s
        ≡ (ok tt, record s { outbox = s.outbox ++ note u.login message to ∷ [] })
  unfolding do_write_to get_session get_session_name get_id get_login get_user send ◌>>=◌
  do_write_to-reached login to s named seated known there online client up =
      rw (named, seated, there, online, known, client, up) refl

  -- What `do_write` does for each of the players.
  abbrev write_each : String → Action D Unit
  write_each login =
      get_id login >>= λ dest_id. if id == dest_id then pure tt else do_write_to id login message

  writes :
      (users : List String) (s : Server D)
      → lookup id s.id2name ≡ some key
      → lookup key s.sessions ≡ some table
      → lookup id s.users ≡ some u
      → All (λ login. contains login table.users ≡ true) users
      → All (IsReached s.login2id s.clients s.links) users
      → for_each users write_each s
        ≡ (ok tt, record s { outbox = s.outbox ++ notes s.login2id id u.login message users })
  unfolding for_each get_id ◌>>=◌
  writes [] s named seated known there reached = rw (append-nil s.outbox) refl
  writes (login ∷ users) s named seated known there reached =
      let r = reached.0 in
      elim (Bool-cases (id == r.id)) [
        | inl same ↦ rw (r.known, same) (writes users s named seated known there.1 reached.1)
        | inr other ↦
            let s' : Server D = record s { outbox = s.outbox ++ note u.login message r.id ∷ [] } in
            let sent =
              do_write_to-reached login r.id s named seated known there.0 r.known r.client r.link in
            rw (r.known, other)
              (ap (λ p. continue p.0 (λ _. for_each users write_each) p.1) sent
                ∙ writes users s' named seated known there.1 reached.1
                ∙ ap (λ out. (ok tt, record s { outbox = out }))
                    (append_assoc s.outbox (note u.login message r.id ∷ [])
                      (notes s.login2id id u.login message users)))
      ]

  -- If the table and the login of the one who writes are known and each player at the table is
  -- logged in and reached, then the others at the table get the message with the login of the
  -- writer, the writer gets none, and nothing else changes.
  pub do_write-notes :
      (s : Server D)
      → lookup id s.id2name ≡ some key
      → lookup key s.sessions ≡ some table
      → lookup id s.users ≡ some u
      → All (IsReached s.login2id s.clients s.links) table.users
      → do_write id message s
        ≡ (ok tt, record s { outbox = s.outbox ++ notes s.login2id id u.login message table.users })
  unfolding do_write get_session get_session_name ◌>>=◌
  do_write-notes s named seated known reached =
      rw (named, seated)
        (writes table.users s named seated known (within table.users table.users (λ l h. h))
          reached)
