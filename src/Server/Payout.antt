-- ===== src/Server/Payout.antt =====
-- The loop of `do_spin` over the bets of one player (src/core/Server.cpp), against `settle`.
use asinc_roulette.Base.{
  ℕ, String, ◌≡◌, refl, ap, ◌∙◌, ◌⊎◌, inl, inr, Bool, false, List, [], ◌∷◌, ◌++◌, some, nat_eq,
  string_eq, contains, ==_refl, Bool-cases,
}
use mathlib.Core.Option.{some-injective}
use asinc_roulette.Base.Int.{ℤ, ◌+ℤ◌, wrap32}
use asinc_roulette.Base.Map.{Map, lookup, insert, lookup-insert}
use asinc_roulette.Failure.{Result, ok}
use asinc_roulette.Roulette.Bets.{Bet}
use asinc_roulette.Roulette.Rules.{wining}
use asinc_roulette.Storage.{Sqlite, IsTable, User, with_balance}
use asinc_roulette.Server.State.{Server, Answer, Content, Link, send, lift, for_each, ◌>>=◌}
use asinc_roulette.Server.Game.{payment_of, pay, pay_player}
use asinc_roulette.Server.Money.{settle, settle-inv}

-- A message to the client is dropped or taken, and throws nothing.
abbrev pub IsReachable : {D : Type 0} → ℕ → Server D → Type 0
IsReachable id s = (contains id s.clients ≡ false) ⊎ (s.links id ≡ Link.up)

-- What a payment may change.
abbrev pub changed : {D : Type 0} → Server D → Map ℕ User → D → List Answer → Server D
changed s m d out = record s { users = m; data_base = d; outbox = out }

send_reaches :
    {D : Type 0} (id : ℕ) (status command : String) (content : Content) (s : Server D)
    → IsReachable id s
    → (out : List Answer) × (send id status command content s ≡ (ok tt, record s { outbox = out }))
unfolding send
send_reaches id status command content s (inl gone) = (s.outbox, rw gone refl)
send_reaches id status command content s (inr up) = elim (Bool-cases (contains id s.clients)) [
  | inl here ↦ (
    s.outbox ++ record { to = id; status = status; command = command; content = content } ∷ [],
    rw (here, up) refl,
  )
  | inr gone ↦ (s.outbox, rw gone refl)
]

-- The assumption on SQLite for a payment: no `UPDATE` raises.
abbrev pub Updates : {D : Type 0} → Sqlite D → Type 0
Updates {D} sql =
    (d : D) (b : ℤ) (login : String) → (d' : D) × (sql.update_balance d b login ≡ some d')

module _ {D : Type 0} ⦃sql : Sqlite D⦄ (table : IsTable sql) (updates : Updates sql) where
  -- The state after the payments to one client: memory and data base hold the same balance.
  abbrev pub Paid : ℕ → User → User → ℤ → Server D → Result Unit × Server D → Type 0
  Paid id u row balance s after =
      (m : Map ℕ User) × (d : D) × (out : List Answer) × (after ≡ (ok tt, changed s m d out))
      × (lookup id m ≡ some (with_balance balance u))
      × (sql.select d u.login ≡ some (with_balance balance row))

  pay_pays :
      (id : ℕ) (bet : Bet) (won : Bool) (value : ℤ) (u row : User) (s : Server D)
      → IsReachable id s
      → lookup id s.users ≡ some u
      → sql.select s.data_base u.login ≡ some row
      → payment_of won bet ≡ some value
      → Paid id u row (wrap32 (u.balance +ℤ value)) s (pay id bet won s)
  unfolding pay ◌>>=◌
  pay_pays id bet won value u row s reach known stored worth =
      let balance = wrap32 (u.balance +ℤ value) in
      let (d, updated) = updates s.data_base balance u.login in
      let m = insert id (with_balance balance u) s.users in
      let (out, sent) =
        send_reaches id "success" "pay" (Content.payment bet value)
          (record s { users = m; data_base = d }) reach in
      (
        m,
        d,
        out,
        rw (worth, known, updated) sent,
        rw (lookup-insert, ==_refl) refl,
        rw (table.select-update_balance _ _ _ _ u.login updated, ==_refl, stored) refl,
      )

  pay_loop :
      (n id : ℕ) (bets : List Bet) (u row : User) (s : Server D) (balance : ℤ)
      → IsReachable id s
      → lookup id s.users ≡ some u
      → sql.select s.data_base u.login ≡ some row
      → row.balance ≡ u.balance
      → settle n bets u.balance ≡ some balance
      → Paid id u row balance s
          (for_each bets (λ bet. lift (wining n bet) >>= λ is_positive. pay id bet is_positive) s)
  unfolding settle for_each ◌>>=◌
  pay_loop n id [] u row s balance reach known stored agree done =
      let same : u.balance ≡ balance = some-injective _ _ done in
      (
        s.users,
        s.data_base,
        s.outbox,
        refl,
        known ∙ ap (λ (b : ℤ). some (with_balance b u)) same,
        stored ∙ ap (λ (b : ℤ). some (with_balance b row)) (agree ∙ same),
      )
  pay_loop n id (bet ∷ bets) u row s balance reach known stored agree done =
      let (w, value, won, worth, rest) = settle-inv n bet bets u.balance balance done in
      let (m, d, out, paid, known', stored') =
        pay_pays id bet w value u row s reach known stored worth in
      let (m', d', out', loop, last, kept) =
        pay_loop n id bets (with_balance (wrap32 (u.balance +ℤ value)) u)
          (with_balance (wrap32 (u.balance +ℤ value)) row) (changed s m d out) balance reach known'
          stored' refl rest in
      (m', d', out', rw (won, paid) loop, last, kept)

  -- If the data base takes the updates and holds the player's balance, and the client is reachable
  -- or gone, then the payments of a spin succeed, and leave the balance that `settle` computes,
  -- in memory and in the data base.
  pub pay_player_settles :
      (n id : ℕ) (login : String) (bets : List Bet) (u row : User) (s : Server D) (balance : ℤ)
      → lookup login s.login2id ≡ some id
      → IsReachable id s
      → lookup id s.users ≡ some u
      → sql.select s.data_base u.login ≡ some row
      → row.balance ≡ u.balance
      → settle n bets u.balance ≡ some balance
      → Paid id u row balance s (pay_player n (login, bets) s)
  unfolding pay_player ◌>>=◌
  pay_player_settles n id login bets u row s balance online reach known stored agree done =
      let (m, d, out, loop, last, kept) =
        pay_loop n id bets u row s balance reach known stored agree done in
      (m, d, out, rw online loop, last, kept)
