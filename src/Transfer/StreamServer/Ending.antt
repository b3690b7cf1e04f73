-- ===== src/Transfer/StreamServer/Ending.antt =====
-- The end of the loop of events (src/transfer/tcp/TransferServer.cpp, `run`).
use asinc_roulette.Base.{
  ℕ, ◌≡◌, refl, sym, ap, ◌∙◌, subst, Bool, true, false, not, ◌&&◌, nat_eq, List, [], ◌∷◌, ◌++◌,
  ◌==◌, Option, some, Bool-cases, arith, contains, ◌⊎◌, inl, inr, if◌then◌else◌,
}
use asinc_roulette.Base.Counting.{contains-erase_key_eq}
use asinc_roulette.Failure.{Error, Result, ok, err}
use asinc_roulette.Stateful.{continue, for_each}
use asinc_roulette.Transfer.StreamServer.State.{StreamSocket, TransferServer, Events}
use asinc_roulette.Transfer.StreamServer.Connections.{unsafe_kill, disconnect_connections}
use asinc_roulette.Transfer.StreamServer.Loop.{Round, handle_events, run}
use asinc_roulette.Transfer.StreamServer.Reaping.{kill-there, kill-missing}

module _ {K W : Type 0} where
  -- A loop that ended without an exception and left no connection.
  abbrev pub IsEmptied : Result Unit × TransferServer K W → Type 0
  IsEmptied p = (p.0 ≡ ok tt) × ((j : ℕ) → contains j p.1.connections ≡ false)

  -- How the loop ends: by an exception, or with every connection closed.
  abbrev pub Ends : Option (Result Unit × TransferServer K W) → Type 0
  Ends o =
      ((e : Error) × (t : TransferServer K W) × (o ≡ some (err e, t)))
      ⊎ ((p : Result Unit × TransferServer K W) × (o ≡ some p) × IsEmptied p)

module _ {K W : Type 0} ⦃net : StreamSocket K⦄ (events : Events W) where
  kill-contains :
      (id j : ℕ) (s : TransferServer K W)
      → contains j (unsafe_kill events id s).1.connections
        ≡ (contains j s.connections && not (j == id))
  kill-contains id j s = elim (Bool-cases (contains id s.connections)) [
    | inl there ↦
        ap (λ (p : Result Unit × TransferServer K W). contains j p.1.connections)
          (kill-there events id s there)
        ∙ contains-erase_key_eq id j s.connections
    | inr missing ↦
        ap (λ (p : Result Unit × TransferServer K W). contains j p.1.connections)
          (kill-missing events id s missing)
        ∙ ground (arith, nat_eq.beq_iff j id)
  ]

  kill-succeeds :
      (never : (id : ℕ) (w : W) → (events.disconnect_handle id w).0 ≡ ok tt) (id : ℕ)
      (s : TransferServer K W)
      → (unsafe_kill events id s).0 ≡ ok tt
  unfolding unsafe_kill
  kill-succeeds never id s = ground (arith, never id s.app)

  pub kill_each-contains :
      (never : (id : ℕ) (w : W) → (events.disconnect_handle id w).0 ≡ ok tt) (ids : List ℕ)
      (s : TransferServer K W)
      → ((j : ℕ) → contains j s.connections ≡ true → contains j ids ≡ true)
      → IsEmptied (for_each (unsafe_kill events) ids s)
  unfolding for_each contains
  kill_each-contains never [] s there = (refl, λ j. ground (arith, there j))
  kill_each-contains never (id ∷ ids) s there =
      let s' = (unsafe_kill events id s).1 in
      let step : for_each (unsafe_kill events) (id ∷ ids) s ≡ for_each (unsafe_kill events) ids s' =
        ap (λ r. continue r (λ _. for_each (unsafe_kill events) ids) s')
          (kill-succeeds never id s) in
      subst IsEmptied (sym step) (
        kill_each-contains never ids s'
          (λ j among. ground (arith, there j, kill-contains id j s, nat_eq.beq_iff j id)))

  disconnect_connections-IsEmptied :
      (never : (id : ℕ) (w : W) → (events.disconnect_handle id w).0 ≡ ok tt)
      (s : TransferServer K W)
      → IsEmptied (disconnect_connections events s)
  unfolding disconnect_connections
  disconnect_connections-IsEmptied never s =
      kill_each-contains never s.connections s (λ j there. there)

  run-stopped :
      (never : (id : ℕ) (w : W) → (events.disconnect_handle id w).0 ≡ ok tt)
      (rounds : List (Round K W)) (s : TransferServer K W)
      → s.stop_requests ≡ true
      → Ends (run events rounds s)
  unfolding run
  run-stopped never [] s stops =
      inr (disconnect_connections events s, rw stops refl, disconnect_connections-IsEmptied never s)
  run-stopped never (r ∷ rounds) s stops =
      inr (disconnect_connections events s, rw stops refl, disconnect_connections-IsEmptied never s)

  round-Ends :
      (q : Result Unit) (t : TransferServer K W) (o : Option (Result Unit × TransferServer K W))
      → Ends o
      → Ends (elim q [ err e ↦ some (err e, t) | ok _ ↦ o ])
  round-Ends (err e) t o ends = inl (e, t, refl)
  round-Ends (ok u) t o ends = ends

  either :
      (b : Bool) (x y : Option (Result Unit × TransferServer K W))
      → Ends x
      → Ends y
      → Ends (if b then x else y)
  either true x y hx hy = hx
  either false x y hx hy = hy

  run-cons :
      (never : (id : ℕ) (w : W) → (events.disconnect_handle id w).0 ≡ ok tt) (r : Round K W)
      (rounds : List (Round K W)) (s : TransferServer K W)
      → Ends (run events rounds (r.meanwhile (handle_events events r.events s).1))
      → Ends (run events (r ∷ rounds) s)
  unfolding run
  run-cons never r rounds s ends =
      either s.stop_requests _ _
        (inr (disconnect_connections events s, refl, disconnect_connections-IsEmptied never s))
        (round-Ends (handle_events events r.events s).0 (handle_events events r.events s).1
          (run events rounds (r.meanwhile (handle_events events r.events s).1)) ends)

  -- If disconnect_handle does not throw and another thread stops the server in one of the rounds,
  -- the loop of events ends: an exception leaves it, or no connection is left.
  pub run-Ends :
      (never : (id : ℕ) (w : W) → (events.disconnect_handle id w).0 ≡ ok tt)
      (before after : List (Round K W)) (last : Round K W)
      (stops : (s : TransferServer K W) → (last.meanwhile s).stop_requests ≡ true)
      (s : TransferServer K W)
      → Ends (run events (before ++ last ∷ after) s)
  unfolding run
  run-Ends never [] after last stops s =
      run-cons never last after s (run-stopped never after _ (stops _))
  run-Ends never (r ∷ before) after last stops s =
      run-cons never r (before ++ last ∷ after) s (run-Ends never before after last stops _)
