-- ===== src/Transfer/DatagramServer.antt =====
-- The server of the datagram transport (src/transfer/udp/TransferServer.cpp): one connection for
-- each address that sends to it. The thread pool, epoll and the sockets are parameters.
pub mod State
pub mod Connections
pub mod Pool
pub mod Loop
pub mod Addresses
pub mod Ending
pub mod Connecting
pub mod Wire
mod Tests
