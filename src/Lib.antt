-- ===== src/Lib.antt =====
-- The lobby server of an online game: it accepts clients, verifies their login tokens with Redis, keeps
-- their friend lists from MySQL, and tells friends on this and on other servers who is online.
--
-- The parts, and the files that model them (paths from the root of the repository):
--   * CircularBuffer: `CircularBuffer` (CircularBuffer.h, CircularBuffer.cpp), the ring of received bytes
--     of a connection. A call returns the flag, the filled array and the new ring.
--   * Overlapped: `OverlappedEx`, `TaskType` and the constants (Define.h), and the pool `OverLappedManager`
--     (OverLappedManager.h, OverLappedManager.cpp). The lock-free queue of boost is a list.
--   * Packet: the packets that clients and server exchange (Packet.h), as bytes, and the records of an
--     account (UserTypes.h, in Packet/Types), which no function of the program uses.
--   * ConnUser: `ConnUser` (ConnUser.h), one connection; ConnUser/Friends is its set of friends, a
--     quotient of the lists. `PushSendMsg` and `SendComplete` return the calls
--     of Windows that they make as `Request`s; ConnUser/Send is the system of whole calls, one after the
--     other, and ConnUser/Threads that of any number of threads whose accesses to the queue, to the
--     count and to the socket interleave.
--   * ConnUsersManager: the table of connections and the map from user keys to them
--     (ConnUsersManager.h, ConnUsersManager.cpp).
--   * Mysql: `MySQLManager` and `AutoConn` (MySQLManager.h, MySQLManager.cpp, DBConfig.h), the pool of
--     connections and the transactions; Mysql/Threads is the system of the queries of several threads.
--     Mysql/Session follows the log of the calls of one connection: how its transaction ended, and whether
--     the library confirmed it; Mysql/Unconfirmed is about a `COMMIT` that fails.
--   * Redis: `RedisManager` (RedisManager.h, RedisManager.cpp), its start (Redis/Start), the packet handlers
--     (Redis/Users) and the events that they publish. Redis/World is the state that they share:
--     connections, pool, Redis, MySQL. Redis/Login, Redis/Leave, Redis/Friends and Redis/Published are
--     about whole handlers. Redis/Stream is the system of the pushes of packets and of the rounds of one
--     `RedisThread`, over the rings of the connections and the queue of descriptors.
--   * Subscriber: `LobbyRedisSubscriber` (LobbyRedisSubscriber.h, LobbyRedisSubscriber.cpp), the thread that
--     reads the events of this server's channel. Handlers return their effects; Subscriber/Perform carries
--     them out on the state of Redis/World, and Subscriber/Delivery is about who gets the notifications.
--     Server/Notify is about an event from the server that publishes it to the one that reads it, and
--     Server/Notify/Login about the login that causes it.
--   * Server: `OutGameLobbyServer` (OutGameLobbyServer.h, OutGameLobbyServer.cpp), the start, and the rounds
--     of the worker and accepter threads. Server/Run is the system of their steps: a server is in order
--     if every number in the accept queue and every object in flight names a connection object, and
--     every object stands at its number. Server/Boot is `init`, Server/Threads the creation of the threads
--     and `ServerEnd`, as a system of steps, and Server/Channels the tables of ServerChannelEnum.h.
--     Server/Ownership adds the objects that the system works on, and counts where each object stands:
--     the system finishes with an object once each time that it took it up.
--   * Heartbeat: `LobbyHeartbeat` (LobbyHeartbeat.h, LobbyHeartbeat.cpp), the thread that renews the
--     server's key in Redis. What other threads do during a round, and how long it takes, is an argument.
--   * Prelude, Text, Effects: shared helpers; Text has what the sources use of `std::string`,
--     `std::to_string`, `std::stoul`, `std::stoi` and `std::getline`; Effects is the monad of code that
--     changes a state and may throw, meet undefined behaviour, or wait for ever.
--
-- Numbers of C++ are native numbers with the wrap-around of their width written out. Bytes are numbers.
-- Bytes that a program does not set (new buffers, padding) are arguments. The MySQL library and the
-- Redis client are records of functions: what a call answers, and what it makes of their state. Calls
-- of other parts that run under a lock, or on one thread, are functions of the state; the steps of
-- ConnUser/Send and Server/Run are atomic. In Server/Threads the body of a round is one step.
-- `ReadRecvData` of a size beyond `readData` is undefined behaviour; of a message longer than its
-- buffer, which no code pushes, `PushSendMsg` drops the bytes beyond it.
--
-- Only the loop over the rows of a query needs fuel (`row_fuel`), one for each row and one for the end;
-- a loop that runs out of it does not return.
--
-- Not modelled: main.cpp, which calls a function that does not exist; `GetInstance` of the singletons;
-- what is written to the console. `init` of the server
-- calls functions of RedisManager and MySQLConnectionPool that the repository does not have: what comes
-- of them is an argument.
pub mod Prelude
pub mod CircularBuffer
pub mod Text
pub mod Overlapped
pub mod Packet
pub mod ConnUser
pub mod ConnUsersManager
pub mod Effects
pub mod Mysql
pub mod Server
pub mod Heartbeat
pub mod Redis
pub mod Subscriber
