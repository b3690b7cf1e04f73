-- ===== src/Roulette.antt =====
-- The bets and the wheel (src/core/config.h, `validate` and `wining` of src/core/Server.cpp).
pub mod Bets
pub mod Rules
pub mod Odds
mod Tests
