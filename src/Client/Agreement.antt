-- ===== src/Client/Agreement.antt =====
-- The client's commands against the server's handlers (src/commands/ClientCommands.cpp,
-- src/handlers/ServerHandlers.cpp, src/core/Server.cpp).
use asinc_roulette.Base.{
  ℕ, String, ◌≡◌, refl, inl, inr, Bool, true, false, ◌||◌, List, [], ◌∷◌, none, some, arith, ◌==◌,
  nat_eq, string_eq, all, subst, Bool-cases,
}
use asinc_roulette.Base.Int.{ℤ, pos, ltb_ℤ}
use asinc_roulette.Base.Map.{lookup}
use asinc_roulette.Json.{Json}
use asinc_roulette.Storage.{Sqlite}
use asinc_roulette.Server.Dispatch.{Handler, server_handlers}
use asinc_roulette.Client.Words.{Word, codes}
use asinc_roulette.Client.Requests
use asinc_roulette.Client.Commands.{Info, Impl, commands, find_command, same_word, bet, sends}

find-all :
    (p : Info → Bool) (name : Word) (entries : List (Info × Impl)) (i : Info) (impl : Impl)
    → all (λ (en : Info × Impl). p en.0) entries ≡ true
    → find_command name entries ≡ some (i, impl)
    → p i ≡ true
unfolding find_command
find-all p name [] i impl h e = cc
find-all p name ((j, k) ∷ rest) i impl h e = elim (Bool-cases (same_word (codes j.name) name)) [
  | inl hit ↦
      let same : j ≡ i = ground arith in subst (λ (x : Info). p x ≡ true) same (ground arith)
  | inr miss ↦ find-all p name rest i impl (ground arith) (ground arith)
]

-- The commands that the client does without the server.
abbrev pub is_local : String → Bool
is_local name = name == "help" || name == "list"

module _ (D J : Type 0) ⦃sql : Sqlite D⦄ ⦃json : Json J⦄ where
  -- Whether the server has the command and asks for that permission.
  abbrev pub served : String → ℕ → Bool
  served name permission = elim (lookup name (server_handlers {D = D} {J = J})) [
    | none ↦ false
    | some (needed, _) ↦ needed == permission
  ]

  table_known :
      all (λ (en : Info × Impl). is_local en.0.name || served en.0.name en.0.permission) commands
      ≡ true
  unfolding server_handlers lookup
  table_known = refl

  -- Each command of the client is one that it does itself, `help` or `list`, or the server has a
  -- handler of that name, which asks for the same permissions.
  pub every_command_known :
      (name : Word) (i : Info) (impl : Impl)
      → find_command name commands ≡ some (i, impl)
      → (is_local i.name || served i.name i.permission) ≡ true
  every_command_known name i impl found =
      find-all (λ i. is_local i.name || served i.name i.permission) name commands i impl table_known
        found

  -- Each handler of the server has a command of the client with the same permissions.
  pub handlers_offered :
      all
        (λ (en : String × (ℕ × Handler D J)). elim (find_command (codes en.0) commands) [
          | none ↦ false
          | some (i, _) ↦ i.permission == en.1.0
        ])
        server_handlers
      ≡ true
  unfolding server_handlers find_command
  handlers_offered = refl

-- What the client sends for `bet` carries no negative number and no negative value.
bet_natural :
    (permission : ℕ) (arguments : List Word) (type : Word) (n v : ℤ)
    → bet permission arguments ≡ sends (Requests.bet type n v)
    → (ltb_ℤ n (pos 0) ≡ false) × (ltb_ℤ v (pos 0) ≡ false)
unfolding bet
bet_natural permission (t ∷ number ∷ value ∷ []) type n v h = ground arith
bet_natural permission [] type n v h = ground arith
bet_natural permission (_ ∷ []) type n v h = ground arith
bet_natural permission (_ ∷ _ ∷ []) type n v h = ground arith
bet_natural permission (_ ∷ _ ∷ _ ∷ _ ∷ _) type n v h = ground arith
