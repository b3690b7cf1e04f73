-- ===== src/Json.antt =====
-- The JSON library (lib/json, a git submodule) as far as the program reads messages with it.
pub mod Example
use asinc_roulette.Base.{ℕ, String, Bool, Option}
use asinc_roulette.Base.Int.{ℤ}

-- `none` is an exception of the library: a text that is no JSON, or a value of another type.
pub record Json (J : Type 0) : Type 0 where
  -- `json::parse`
  pub parse : String → Option J
  -- `value[name]`; a member that is missing reads as null
  pub field : J → String → Option J
  -- the conversions to `std::string` and to `int`
  pub as_string : J → Option String
  pub as_int : J → Option ℤ
  -- `value.count(name) > 0`
  pub has : J → String → Bool
