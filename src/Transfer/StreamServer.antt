-- ===== src/Transfer/StreamServer.antt =====
-- The server of the stream transport (src/transfer/tcp/TransferServer.cpp): its connections, the
-- tasks on them and the loop of events. The thread pool, epoll and the sockets are parameters.
pub mod State
pub mod Connections
pub mod Pool
pub mod Loop
pub mod Steps
pub mod Orderly
pub mod OneTask
pub mod Reaping
pub mod Draining
pub mod Marks
pub mod Ending
pub mod Mild
pub mod Descriptors
pub mod Wire
mod Tests
