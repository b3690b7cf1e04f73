-- ===== src/Server/Access.antt =====
-- Who may do what (src/handlers/Handlers.h, src/handlers/ServerHandlers.cpp): a command without
-- the permission for it is answered with an error and does nothing.
use asinc_roulette.Base.{
  ℕ, String, ◌≡◌, refl, inl, inr, Bool, true, ◌||◌, arith, ◌==◌, string_eq, nat_eq, all, not,
  Option-cases,
}
use asinc_roulette.Base.Map.{lookup, all-lookup}
use asinc_roulette.Failure.{ok}
use asinc_roulette.Handlers.{Handlers, select}
use asinc_roulette.Json.{Json}
use asinc_roulette.Permissions
use asinc_roulette.Permissions.{allows}
use asinc_roulette.Storage.{Sqlite}
use asinc_roulette.Server.State.{Server}
use asinc_roulette.Server.Dispatch.{Handler, server_handlers}

-- What is the same before and after a refused command.
abbrev pub Unchanged : {D : Type 0} → Server D → Server D → Type 0
Unchanged s s' = (s'.sessions ≡ s.sessions) × (s'.users ≡ s.users) × (s'.data_base ≡ s.data_base)

abbrev is_guest_command : String → Bool
is_guest_command command = command == "signin" || command == "signup" || command == "disconnect"

module _ (D J : Type 0) ⦃sql : Sqlite D⦄ ⦃json : Json J⦄ where
  guest_table :
      all
        (λ (en : String × (ℕ × Handler D J)).
          not (allows Permissions.guest en.1.0) || is_guest_command en.0)
        server_handlers
      ≡ true
  unfolding server_handlers
  guest_table = refl

  -- Before it signs in, a client is given no handler but those of `signin`, `signup` and
  -- `disconnect`.
  guest_commands :
      (command : String) (handler : Handler D J)
      → select server_handlers Permissions.guest command ≡ ok handler
      → is_guest_command command ≡ true
  unfolding select
  guest_commands command handler given =
      elim (Option-cases (lookup command (server_handlers {D = D} {J = J}))) [
        | inl missing ↦ absurd (ground arith)
        | inr ((needed, h), found) ↦
            let row =
              all-lookup
                (λ (en : String × (ℕ × Handler D J)).
                  not (allows Permissions.guest en.1.0) || is_guest_command en.0)
                command server_handlers guest_table found in
            ground arith
      ]
