-- ===== src/Transfer.antt =====
-- The transport (src/transfer/tcp, src/transfer/udp): messages on a stream and in datagrams, and the
-- servers and clients that carry them.
pub mod Framing
pub mod System
pub mod Tcp
pub mod Winsock
pub mod Udp
pub mod StreamServer
pub mod DatagramServer
pub mod StreamClient
pub mod DatagramClient
mod Tests
