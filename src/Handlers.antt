-- ===== src/Handlers.antt =====
-- `class Handlers` (src/handlers/Handlers.h): named handlers, each with the permissions that it
-- asks for.
use asinc_roulette.Base.{ℕ, String, string_eq, none, some, if◌then◌else◌}
use asinc_roulette.Base.Map.{Map, lookup, member, insert}
use asinc_roulette.Failure.{Result, ok, err, handler_not_found, permission_denied}
use asinc_roulette.Permissions.{allows}

abbrev pub Handlers : Type 0 → Type 0
Handlers H = Map String (ℕ × H)

module _ {H : Type 0} where
  -- `emplace` keeps a handler that is there.
  unfoldable pub add_handler : ℕ → String → H → Handlers H → Handlers H
  add_handler permission name impl handlers =
      if member name handlers then handlers else insert name (permission, impl) handlers

  -- The handler that `execute` calls, or what it throws.
  unfoldable pub select : Handlers H → ℕ → String → Result H
  select handlers permission name = elim (lookup name handlers) [
    | none ↦ err handler_not_found
    | some (needed_permission, handler) ↦
        if allows permission needed_permission then ok handler else err permission_denied
  ]
