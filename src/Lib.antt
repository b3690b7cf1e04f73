-- ===== src/Lib.antt =====
-- A verification library for the roulette server and its client.
--
-- The program has five layers. A socket (src/transfer/tcp/LinuxSocket.cpp or
-- src/transfer/udp/LinuxSocket.cpp) carries messages; the transport (src/transfer/tcp/TransferServer.cpp
-- or src/transfer/udp/TransferServer.cpp, and TransferClient.cpp beside them) keeps the connections and
-- runs a task for each that has something to read; a session (src/session/Session.cpp) encrypts the
-- messages, one for each client of src/session/SessionServer.cpp and the one of
-- src/session/SessionClient.cpp; the server (src/core/Server.cpp, src/handlers/ServerHandlers.cpp, src/core/DataBase.cpp)
-- turns a message into a command and keeps users, tables and bets; the client program
-- (src/commands/ClientCommands.cpp, src/core/Client.cpp) turns a line of input into a message.
--
-- Which file models what:
-- - Base: shared helpers; Base.Int an `int` with its wrap-around, Base.Map a map as an association
--   list, Base.Lists and Base.Slices lists measured by native numbers.
-- - Failure: the exceptions of the code as values, and which of them `session_handle` catches.
-- - Stateful: code that changes a state and may throw.
-- - Permissions, Handlers: src/commands/permissions.h and src/handlers/Handlers.h.
-- - Json, Storage: the JSON library and SQLite as parameters; Storage has the queries of
--   src/core/DataBase.cpp, each under its name. Json.Example and Storage.Example are small instances.
-- - Roulette: Bets is src/core/config.h; Rules is `validate` and `wining` of src/core/Server.cpp;
--   Odds follows what a bet can win.
-- - Server: State is the fields of `class Server`, an action on it that may throw, and `send`;
--   Users, Seating, Game and Requests are its methods, one function of the same name for each
--   (`do_write` with a login is `do_write_to`); Dispatch is src/handlers/ServerHandlers.cpp with
--   `session_handle`, `connect_handle` and `disconnect_handle`. Keeps and Soundness are the rules for
--   invariants and the invariant of the tables; Run is the calls of the transport in any order;
--   Money, Solvency and Payout are about bets and balances, Accepted about a bet from `do_bet` to the
--   payments of a spin; Access is about permissions,
--   Signing about signing in and out, Writing about messages to a table, Leaving about a croupier who
--   leaves and Visiting about a player who joins and leaves.
-- - Session: Vectors is `construct` and `deconstruct`, Messages the methods of `class Session`,
--   Crypto the interface of OpenSSL and base64, Handshake two sessions that talk to each other.
--   Server is src/session/SessionServer.cpp and Client is src/session/SessionClient.cpp, one function
--   for each method, with what the derived class adds as an argument; Exchange is single steps of the
--   two, Conversation the handshake and the messages after it.
-- - Transfer: Framing is the delimiter, System what the sockets ask of the system, with the addresses
--   they make. Tcp and Udp are the two sockets, each with Calls, its methods that call the system;
--   Tcp.Delivered is messages over two systems.
--   Udp.Delivery is a message on its way in datagrams that keep their order, on the lemmas of
--   Udp.Packages. Udp.Unreliable is a row of messages over a network that does not: Outgoing is what
--   the sender gives to it, Network where a receiver can stand, Arrivals what one datagram does to it
--   and Standing what many do; Resending is what the sender keeps and sends again, and Retransmission
--   what that does to the receiver. Winsock is src/transfer/tcp/WinSocket.cpp, Winsock.Blocks and
--   Winsock.Roundtrip a message in blocks. StreamClient and DatagramClient are the two
--   TransferClient.cpp.
-- - Transfer.StreamServer: src/transfer/tcp/TransferServer.cpp. State is its data and what it asks of
--   sockets and of the derived class, Connections the methods that hold the mutex of the server, Pool
--   `handle_connection` and `task`, Loop the rounds of `run`. Steps is the threads interleaved at what
--   they do under a mutex, Orderly and OneTask the invariant of the connections and the tasks, Mild and
--   Descriptors that of the descriptors, Reaping and Ending the end of connections, Draining the
--   messages of a task, Marks the mark of a connection that hangs up. Wire fits the socket of
--   Transfer.Tcp in.
-- - Transfer.DatagramServer: src/transfer/udp/TransferServer.cpp, in modules of the same names;
--   Addresses is about `concat` of src/transfer/udp/LinuxSocket.cpp, Connecting about the connection
--   of an address.
-- - EndToEnd: a message from the session of a client through Transfer.Tcp, the task of
--   Transfer.StreamServer and Session.Server to `session_handle`; EndToEnd.Plain and EndToEnd.Arriving
--   are its lemmas.
-- - Console: the commands of src/simple/SimpleServerCommands.h; Console.Killing is about one of them.
-- - Client: Words is `Command::parse` and `str2int`, Splitting `split` and `drop`, Requests the
--   methods of `class Client` that send, Commands the table of src/commands/ClientCommands.cpp,
--   Agreement the client against the server; Answers is src/handlers/ClientHandlers.cpp and
--   `session_input`, Tracking the permission it keeps.
--
-- Conventions. An exception leaves the state as the code has changed it so far. A `char` of the
-- datagram socket stands as its value modulo 256, a `permission_t` as its bit pattern, a set or a map
-- as a list. The number that `std::rand()` returns and what the network does with a message are
-- arguments. A loop that takes messages out of a buffer runs on the length of the buffer, and the
-- loop of `send` on the length of the message, which is enough for messages of at most 4294966782
-- bytes, since each round shortens what is left. The position of that loop is an `unsigned`, which for
-- longer messages starts again at 0: the loop of the code never ends then, and the model of `send` is
-- what its first rounds hand over.
--
-- The transport's connections are shared with its tasks: an object stands in a heap, under its id in
-- the stream server, which gives an id once, and under a pointer in the datagram server. The thread
-- pool is the list of the tasks that it has not finished, epoll the list of events that it reports,
-- and what other threads do between two rounds of `run` is an argument. The loop of `task` runs on the
-- number of messages, for which task-serve shows that one round more is enough; the loops of the
-- datagram server that disconnect run on rounds, since they need not end; `run` runs on the rounds
-- that are known.
--
-- The system is an argument: its calls return what they like and leave it in a state of their choice. A
-- descriptor stands as its bit pattern, and what stands behind a string in memory is a function.
-- One `recv` of the wire of the stream server brings at most 512 bytes. The lambda that gives a message
-- to `handle` returns nothing, which is undefined behaviour: the theorems about a task hold for any
-- handler, and EndToEnd takes what is found in place of the value as an argument.
--
-- `receive` of the socket for Windows runs on the blocks that are known to come, `raw_receive` on 512
-- rounds, which is enough since each adds a byte.
--
-- Not modelled: the text in which answers are printed, the demonstration in src/simple/Server.cpp and src/simple/Client.cpp, the
-- interleavings of the threads of the datagram server. Where a class calls what the class derived from
-- it adds, the model takes that as an argument.
pub mod Base
pub mod Failure
pub mod Stateful
pub mod Handlers
pub mod Json
pub mod Permissions
pub mod Roulette
pub mod Storage
pub mod Transfer
pub mod Session
pub mod Server
pub mod Client
pub mod Console
pub mod EndToEnd
