-- ===== src/Session.antt =====
-- The encrypted session (src/session). The first message carries the key of the
-- symmetric cipher, under the public key of the peer; the later ones use that cipher. OpenSSL and
-- the base64 library are parameters.
pub mod Vectors
pub mod Crypto
pub mod Messages
pub mod Handshake
pub mod Server
pub mod Client
pub mod Exchange
pub mod Conversation
mod Tests
