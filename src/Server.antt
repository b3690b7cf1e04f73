-- ===== src/Server.antt =====
-- `class Server` (src/core/Server.h, src/core/Server.cpp) with its handlers
-- (src/handlers/ServerHandlers.cpp, src/handlers/Handlers.h).
pub mod State
pub mod Keeps
pub mod Soundness
pub mod Money
pub mod Solvency
pub mod Accepted
pub mod Payout
pub mod Users
pub mod Seating
pub mod Game
pub mod Requests
pub mod Dispatch
pub mod Run
pub mod Access
pub mod Signing
pub mod Writing
pub mod Leaving
pub mod Visiting
mod Tests
mod TableTests
