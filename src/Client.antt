-- ===== src/Client.antt =====
-- The client program: the words of a line (src/commands/Command.cpp, src/session/strings.h), the
-- commands (src/commands/Commands.cpp, src/commands/ClientCommands.cpp) and the requests that they
-- send (src/core/Client.cpp), and the answers (src/handlers/ClientHandlers.cpp).
pub mod Words
pub mod Splitting
pub mod Requests
pub mod Commands
pub mod Answers
pub mod Tracking
pub mod Agreement
mod Tests
