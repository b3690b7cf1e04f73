-- ===== src/Server/Money.antt =====
-- What a bet costs and what a spin pays (src/core/Server.cpp, `do_bet` and `pay`).
use asinc_roulette.Base.{
  ℕ, String, ◌≡◌, sym, ◌∙◌, inl, inr, Bool, List, [], ◌∷◌, ◌++◌, Option, none, some, arith, nat_eq,
  string_eq, Option-cases, Bool-cases, if◌then◌else◌,
}
use asinc_roulette.Base.Int.{ℤ, pos, ◌+ℤ◌, ltb_ℤ, wrap32}
use asinc_roulette.Base.Map.{lookup, insert}
use asinc_roulette.Failure.{Error, Result-cases, ok, err, not_enough_money}
use asinc_roulette.Roulette.Bets.{Bet}
use asinc_roulette.Roulette.Rules.{validate, wining}
use asinc_roulette.Storage.{Sqlite, User}
use asinc_roulette.Server.State.{Server, Table, Content, send, ◌>>=◌}
use asinc_roulette.Server.Game.{staked, bets_of, do_bet, payment_of, pay}

-- `bet` on top of the bets that are placed.
abbrev pub total_stake : String → Table → Bet → ℤ
total_stake login t bet = wrap32 (staked (pos 0) (bets_of login t) +ℤ bet.value)

abbrev pub with_bet : String → Bet → Table → Table
with_bet login bet t = record t { bets = insert login (bets_of login t ++ bet ∷ []) t.bets }

-- Why the server refuses a bet on a table, if it does.
abbrev pub refusal : User → Table → Bet → Option Error
refusal u t bet = elim (validate bet) [
  | err e ↦ some e
  | ok _ ↦ if ltb_ℤ u.balance (total_stake u.login t bet) then some not_enough_money else none
]

module _ {D : Type 0} (id : ℕ) (status command : String) (content : Content) (s : Server D) where
  -- An answer, sent or not, changes nothing but what the transport was given.
  pub send_keeps :
      ((send id status command content s).1.sessions ≡ s.sessions)
      × ((send id status command content s).1.users ≡ s.users)
      × ((send id status command content s).1.data_base ≡ s.data_base)
  unfolding send
  send_keeps = ground arith

module _ {D : Type 0} (id : ℕ) (bet : Bet) (s : Server D) (key : String) (t : Table) (u : User)
    (named : lookup id s.id2name ≡ some key) (seated : lookup key s.sessions ≡ some t)
    (known : lookup id s.users ≡ some u) where
  -- A bet that the rules refuse, or that takes the stakes of the player above the balance,
  -- throws that error and changes nothing.
  pub do_bet_refused : (e : Error) → refusal u t bet ≡ some e → do_bet id bet s ≡ (err e, s)
  unfolding do_bet ◌>>=◌
  do_bet_refused e r = elim (Result-cases (validate bet)) [
    | inr (e', v) ↦ rw v (let same : e' ≡ e = ground arith in rw same)
    | inl (_, v) ↦ elim (Bool-cases (ltb_ℤ u.balance (total_stake u.login t bet))) [
      | inl high ↦
          rw (v, named, seated, known, high)
            (let same : not_enough_money ≡ e = ground arith in rw same)
      | inr low ↦ absurd (ground arith)
    ]
  ]

  pub do_bet_placed :
      refusal u t bet ≡ none
      → ((do_bet id bet s).1.sessions ≡ insert key (with_bet u.login bet t) s.sessions)
        × ((do_bet id bet s).1.users ≡ s.users)
  unfolding do_bet ◌>>=◌
  do_bet_placed r = elim (Result-cases (validate bet)) [
    | inr (e', v) ↦ absurd (ground arith)
    | inl (_, v) ↦ elim (Bool-cases (ltb_ℤ u.balance (total_stake u.login t bet))) [
      | inl high ↦ absurd (ground arith)
      | inr low ↦
          let kept =
            send_keeps id "success" "bet" Content.empty
              (record s { sessions = insert key (with_bet u.login bet t) s.sessions }) in
          rw (v, named, seated, known, low) (kept.0, kept.1)
    ]
  ]

-- The balance after the bets of a player are paid, when `n` was drawn.
unfoldable pub settle : ℕ → List Bet → ℤ → Option ℤ
settle n [] balance = some balance
settle n (bet ∷ bets) balance = elim (wining n bet) [
  | err _ ↦ none
  | ok won ↦ elim (payment_of won bet) [
    | none ↦ none
    | some value ↦ settle n bets (wrap32 (balance +ℤ value))
  ]
]

module _ (n : ℕ) (bet : Bet) (bets : List Bet) (b : ℤ) where
  pub settle-cons :
      (w : Bool) (value : ℤ)
      → wining n bet ≡ ok w
      → payment_of w bet ≡ some value
      → settle n (bet ∷ bets) b ≡ settle n bets (wrap32 (b +ℤ value))
  unfolding settle
  settle-cons w value won paid = rw (won, paid, settle)

  pub settle-inv :
      (b' : ℤ)
      → settle n (bet ∷ bets) b ≡ some b'
      → (w : Bool) × (value : ℤ) × (wining n bet ≡ ok w)
        × (payment_of w bet ≡ some value)
        × (settle n bets (wrap32 (b +ℤ value)) ≡ some b')
  unfolding settle
  settle-inv b' done = elim (Result-cases (wining n bet)) [
    | inr (e, threw) ↦ absurd (ground arith)
    | inl (w, won) ↦ elim (Option-cases (payment_of w bet)) [
      | inl unpaid ↦ absurd (ground arith)
      | inr (value, paid) ↦ (w, value, won, paid, sym (settle-cons w value won paid) ∙ done)
    ]
  ]

module _ {D : Type 0} ⦃sql : Sqlite D⦄ (id : ℕ) (bet : Bet) (won : Bool) (s : Server D) (u : User)
    (value : ℤ) (d : D) (known : lookup id s.users ≡ some u)
    (worth : payment_of won bet ≡ some value)
    (stored : sql.update_balance s.data_base (wrap32 (u.balance +ℤ value)) u.login ≡ some d) where
  -- A payment changes the balance in memory and in the data base by the same value.
  pub pay_changes :
      ((pay id bet won s).1.users
        ≡ insert id (record u { balance = wrap32 (u.balance +ℤ value) }) s.users)
      × ((pay id bet won s).1.data_base ≡ d)
  unfolding pay ◌>>=◌
  pay_changes =
      let kept = send_keeps id "success" "pay" (Content.payment bet value) (record s {
        users = insert id (record u { balance = wrap32 (u.balance +ℤ value) }) s.users;
        data_base = d;
      }) in
      rw (worth, known, stored) (kept.1, kept.2)
