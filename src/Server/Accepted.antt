-- ===== src/Server/Accepted.antt =====
-- From `do_bet` to the payments of a spin (src/core/Server.cpp, `do_bet`, `do_spin` and `pay`): bets
-- that are not negative and that `do_bet` takes never cost more than the balance; a negative bet
-- pays for losing.
use asinc_roulette.Base.{
  ℕ, suc, ◌+◌, ◌*◌, ◌≤◌, ◌<◌, ◌^◌, String, ◌≡◌, refl, sym, false, List, [], ◌∷◌, ◌++◌, none, some,
  arith, string_eq, nat_eq, ==_refl, length, length-append, All, ap, subst, ◌∙◌, Option-cases, inl,
  inr,
}
use asinc_roulette.Base.Int.{ℤ, pos, negsuc, pos_part, ◌+ℤ◌, ◌-ℤ◌, ltb_ℤ, wrap32}
use asinc_roulette.Base.Map.{lookup, insert, lookup-insert}
use asinc_roulette.Failure.{ok}
use asinc_roulette.Roulette.Bets.{Bet, max_number}
use asinc_roulette.Roulette.Rules.{validate, wining}
use asinc_roulette.Storage.{Sqlite, IsTable, User}
use asinc_roulette.Server.State.{Server, Table}
use asinc_roulette.Server.Game.{staked, bets_of, payment, payment_of, do_bet, pay_player}
use asinc_roulette.Server.Money.{
  total_stake, with_bet, refusal, settle, settle-cons, do_bet_refused, do_bet_placed,
}
use asinc_roulette.Server.Payout.{IsReachable, Paid, Updates, pay_player_settles}
use asinc_roulette.Server.Solvency.{
  IsStake, stakes, settle_solvent, refusal_covers, wrap_add, staked-pos, stakes-append, All-append,
}

-- A bet without a refusal, on top of earlier ones, leaves all of them covered.
free_solvent :
    (n b : ℕ) (u : User) (t : Table) (bet : Bet)
    → refusal u t bet ≡ none
    → u.balance ≡ pos b
    → n < max_number
    → All IsStake (bets_of u.login t ++ bet ∷ [])
    → b + 35 * stakes (bets_of u.login t ++ bet ∷ []) < 2 ^ 31
    → (b' : ℕ) × (settle n (bets_of u.login t ++ bet ∷ []) u.balance ≡ some (pos b'))
free_solvent n b u t bet free e h good high =
    let bets = bets_of u.login t in
    let (earlier, (stake, _)) = All-append IsStake bets (bet ∷ []) good in
    let sum = stakes-append bets (bet ∷ []) in
    let old : staked (pos 0) bets ≡ pos (stakes bets) =
      staked-pos 0 bets earlier (omega arith) ∙ ap pos (omega arith) in
    let total : total_stake u.login t bet ≡ pos (stakes bets + pos_part bet.value) =
      rw old (wrap_add (stakes bets) (pos_part bet.value) bet.value stake.amount (omega arith)) in
    let covered : stakes bets + pos_part bet.value ≤ b = refusal_covers u t bet b _ free e total in
    let (b', done, _, _) = settle_solvent n b (bets ++ bet ∷ []) h good (omega arith) high in
    (b', rw e done)

step_gained :
    (b k : ℕ) → b + suc k < 2 ^ 31 → wrap32 (pos b +ℤ wrap32 (pos 0 -ℤ negsuc k)) ≡ pos (b + suc k)
unfolding wrap32 ◌+ℤ◌ ◌-ℤ◌
step_gained b k h = ground arith

below_zero : (b k : ℕ) → b + suc k < 2 ^ 31 → ltb_ℤ (pos b) (wrap32 (pos 0 +ℤ negsuc k)) ≡ false
unfolding wrap32 ◌+ℤ◌
below_zero b k h = ground arith

settle-nil : (n : ℕ) (b : ℤ) → settle n [] b ≡ some b
unfolding settle
settle-nil n b = refl

negative_settles :
    (n b k : ℕ) (u : User) (t : Table) (bet : Bet)
    → validate bet ≡ ok tt
    → bet.value ≡ negsuc k
    → u.balance ≡ pos b
    → bets_of u.login t ≡ []
    → b + suc k < 2 ^ 31
    → wining n bet ≡ ok false
    → (refusal u t bet ≡ none) × (settle n (bet ∷ []) u.balance ≡ some (pos (b + suc k)))
unfolding payment_of payment staked
negative_settles n b k u t bet valid value balance fresh high lost =
    let low = below_zero b k high in
    let paid : payment_of false bet ≡ some (wrap32 (pos 0 -ℤ negsuc k)) = rw value in
    (
      rw (valid, refusal) (rw (balance, fresh, value, staked, low)),
      settle-cons n bet [] u.balance false _ lost paid
          ∙ settle-nil n (wrap32 (u.balance +ℤ wrap32 (pos 0 -ℤ negsuc k)))
          ∙ ap some (rw balance (step_gained b k high)),
    )

bet_behind : (xs : List Bet) (x : Bet) → xs ≡ xs ++ x ∷ [] → ⊥
bet_behind xs x same = omega (arith, ap length same, length-append xs (x ∷ []))

bets_of-with_bet :
    (login : String) (bet : Bet) (t : Table)
    → bets_of login (with_bet login bet t) ≡ bets_of login t ++ bet ∷ []
bets_of-with_bet login bet t =
    let bets = bets_of login t ++ bet ∷ [] in
    let found : lookup login (insert login bets t.bets) ≡ some bets =
      rw (lookup-insert, ==_refl) refl in
    ap (λ o. elim o as (λ _. List Bet) [ none ↦ [] | some bs ↦ bs ]) found

-- A player sits at a table; later, in the state `s'`, the payments of a spin reach this player,
-- whose balance is still the same, in memory and in the data base.
module _ {D : Type 0} ⦃sql : Sqlite D⦄ (table : IsTable sql) (updates : Updates sql) (id : ℕ)
    (bet : Bet) (s : Server D) (key : String) (t : Table) (u : User)
    (named : lookup id s.id2name ≡ some key) (seated : lookup key s.sessions ≡ some t)
    (known : lookup id s.users ≡ some u) (s' : Server D) (row : User)
    (online : lookup u.login s'.login2id ≡ some id) (reach : IsReachable id s')
    (same : lookup id s'.users ≡ some u) (stored : sql.select s'.data_base u.login ≡ some row)
    (agree : row.balance ≡ u.balance) where
  -- A bet without a refusal stands in the table after `do_bet`.
  stored_bet :
      refusal u t bet ≡ none
      → lookup key (do_bet id bet s).1.sessions ≡ some (with_bet u.login bet t)
  stored_bet free =
      let (placed, _) = do_bet_placed id bet s key t u named seated known free in
      ap (lookup key) placed ∙ (rw (lookup-insert, ==_refl) refl)

  -- What `do_bet` has put behind the earlier bets had no refusal.
  placed-free :
      (t' : Table)
      → lookup key (do_bet id bet s).1.sessions ≡ some t'
      → bets_of u.login t' ≡ bets_of u.login t ++ bet ∷ []
      → refusal u t bet ≡ none
  placed-free t' now behind = elim (Option-cases (refusal u t bet)) [
    | inl free ↦ free
    | inr (e, refused) ↦
        let kept = do_bet_refused id bet s key t u named seated known e refused in
        let there : some t ≡ some t' =
          sym seated ∙ sym (ap (λ r. lookup key r.1.sessions) kept) ∙ now in
        let equal : t ≡ t' = ground (arith, there) in
        absurd (bet_behind (bets_of u.login t) bet (ap (bets_of u.login) equal ∙ behind))
  ]

  -- If after do_bet the bet stands behind the player's earlier bets at the table, all of them valid
  -- and not negative, and the balance and 35 times the stakes stay below 2 ^ 31, then the payments
  -- of a spin for them, whatever is drawn, succeed at any later time at which the balance is the
  -- same, if the player is online, is reached or gone, and the data base holds the balance and takes
  -- updates, and they leave a balance that is not negative.
  pub accepted_bets_solvent :
      (n b : ℕ) (t' : Table)
      → lookup key (do_bet id bet s).1.sessions ≡ some t'
      → bets_of u.login t' ≡ bets_of u.login t ++ bet ∷ []
      → u.balance ≡ pos b
      → n < max_number
      → All IsStake (bets_of u.login t')
      → b + 35 * stakes (bets_of u.login t') < 2 ^ 31
      → (b' : ℕ) × Paid table updates id u row
          (pos b')
          s'
          (pay_player n (u.login, bets_of u.login t') s')
  accepted_bets_solvent n b t' now behind e h good high =
      let free = placed-free t' now behind in
      let (b', settled) =
        free_solvent n b u t bet free e h (subst (All IsStake) behind good)
          (omega (arith, high, ap stakes behind)) in
      (
        b',
        pay_player_settles table updates n id u.login (bets_of u.login t') u row s' (pos b') online
            reach same stored agree (ap (λ bets. settle n bets u.balance) behind ∙ settled),
      )

  -- do_bet takes a valid negative bet of a player with no other bets, and if it loses, the payments
  -- of a later spin, at which the balance is the same, raise the balance, in memory and in the data
  -- base, by its amount, if the sum stays below 2 ^ 31, the player is online, is reached or gone, and
  -- the data base holds the balance and takes updates.
  pub negative_bet_profits :
      (n b k : ℕ)
      → validate bet ≡ ok tt
      → bet.value ≡ negsuc k
      → u.balance ≡ pos b
      → bets_of u.login t ≡ []
      → b + suc k < 2 ^ 31
      → wining n bet ≡ ok false
      → (t' : Table) × (lookup key (do_bet id bet s).1.sessions ≡ some t')
        × (bets_of u.login t' ≡ bet ∷ [])
        × Paid table updates id u row
            (pos (b + suc k))
            s'
            (pay_player n (u.login, bets_of u.login t') s')
  negative_bet_profits n b k valid value balance fresh high lost =
      let (free, settled) = negative_settles n b k u t bet valid value balance fresh high lost in
      let bets = bets_of-with_bet u.login bet t ∙ ap (λ xs. xs ++ bet ∷ []) fresh in
      (
        with_bet u.login bet t,
        stored_bet free,
        bets,
        pay_player_settles table updates n id u.login (bets_of u.login (with_bet u.login bet t)) u
            row s' (pos (b + suc k)) online reach same stored agree
            (ap (λ xs. settle n xs u.balance) bets ∙ settled),
      )
