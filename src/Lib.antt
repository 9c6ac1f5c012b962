-- ===== src/Lib.antt =====
-- Verification of gamnet, a C++ network library for game servers.
--
-- The program. A server accepts links (sockets) and gives each a session. The bytes of a link are
-- gathered in a packet and cut into messages, which a dispatcher hands to handlers. Servers are
-- joined by routers: a router session belongs to another server, and messages go to it by an
-- address, uni-cast, multi-cast or any-cast. Links, packets and buffers come from object pools.
--
-- What models what (paths from the repository's root):
--   Buffer        Gamnet/Library/Buffer.{h,cpp}: the byte buffer. `mem` is its block; cursors wrap
--                 at 2 ^ 64. A copy outside the block, or a `memcpy` that overlaps, is `fault`.
--   Packet        Gamnet/Network/Tcp/Packet.{h,cpp}: header, `Write`, `Read` and the getters.
--   Receiver      Gamnet/Network/Tcp/LinkManager.h (`OnRecvMsg`) and the read loop of
--                 Gamnet/Network/Link.cpp: cutting a stream of bytes into messages. `Framing` says
--                 what a stream is, without the buffer; the others relate the two.
--                 `Routed` is Gamnet/Network/Router/LinkManager.cpp (`OnRecvMsg`), between routers.
--   MsgRouter     Gamnet/Network/Router/MsgRouter.h: the messages between routers, as they are
--                 stored and loaded, and the order on addresses.
--   Pool          Gamnet/Library/Pool.h: the object pool; `Balance` has the pool with its users.
--   Sessions      Gamnet/Network/Session.{h,cpp}: `SessionManager`, sessions by key, and its timer.
--   Links         Gamnet/Network/LinkManager.{h,cpp}: accepting, the table of links, its timer.
--   Log           Gamnet/Log/{Logger,File,Log}.cpp: the levels of the log and its files, on a
--                 disk that is a parameter.
--   Sender        Gamnet/Network/Link.cpp: the send queue and the loop of `SyncSend`.
--   Waiting       Gamnet/Network/Router/Session.h: the sessions that wait for a routed answer.
--   RouterCaster  Gamnet/Network/Router/RouterCaster.{h,cpp}: the route tables and sending.
--   Handlers      Gamnet/Network/Handler*.{h,cpp} and the dispatchers, Gamnet/Network/Tcp/Dispatcher.h
--                 and Gamnet/Network/Router/Dispatcher.h: which handler gets a message. `Answers`
--                 has them together with RouterCaster and Waiting.
--   Peers         Gamnet/Network/Router/{RouterHandler,Session}.cpp: the handshake by which two
--                 servers learn each other's addresses, on top of RouterCaster.
--   Http          Gamnet/Network/Http/{Request,LinkManager,Dispatcher,Response,Session}.cpp: the
--                 request line, its parameters, and the answer. Curl's calls are parameters.
--   HttpClient    Gamnet/Network/Http/HttpClient.cpp: requests to other servers. Curl's handle and
--                 its calls are a parameter; the loop on redirections has fuel, and `none` where it
--                 still goes on.
--   Workers       Gamnet/Library/ThreadPool.h: the steps of its threads, and what holds in every
--                 interleaving of them.
--   Redis         Gamnet/Database/Redis/{Connection,ResultSet}.cpp: the words of a reply and their
--                 parser. `Replies` has the replies of the protocol as trees.
--   Reconnect     Gamnet/Network/Tcp/LinkManager.h (accept, close, connect and reconnect) and
--                 Link::AttachSession: sessions that outlive their links. JSON is a parameter.
--   Mysql         Gamnet/Database/MySQL/ResultSet.cpp: walking over the rows of a result. The client
--                 library is a parameter.
--   Idlc          idlc/src/generate_rule_cpp.cpp and idlc/src/token.h: the message compiler. A type is
--                 given the meaning of the C++ statements that are printed for it, and a file the
--                 serializers that it declares. `Messages/Routers` compares them with MsgRouter.
--                 `Csharp` is idlc/src/generate_rule_csharp.cpp, and `Csharp/Files` compares both.
--   Weights       Gamnet/Library/Random.h: `WeightRandom`. The random number is a parameter.
--   ConnectionPool Gamnet/Database/ConnectionPool.h: a pool of connections for each database.
--   Base64        Gamnet/Library/Base64.cpp: both directions.
--   Prelude       what the modules share: lists, maps, memory, words, bytes, outcomes.
--
-- How it is modelled. A call that can throw or touch memory that it must not gives an `Outcome`.
-- Objects that are shared are numbers with a store. Methods that hold a lock are single steps, and
-- an interleaving of callers is a list of calls. Handlers of links are run one after the other,
-- where more threads could make a call of a strand wait. Bytes and integers are natural numbers below the
-- bound of their type; a wrap-around is written out.
--
-- Fuel. The loop of `OnRecvMsg` runs on as much fuel as bytes are unread and one more: a round that
-- goes on takes a message of ten bytes at least. Running out counts as a fault, which the theorems
-- on the loop exclude. `SyncSend` sends a byte at least in each turn, so what is left to send and
-- one more is enough. Reading parameters drops a byte in each round that
-- another follows, each call of Redis' `Parse` uses a token, and a loop over a result takes a row in
-- each turn and one more turn to end.
--
-- Not modelled: sockets, the event loop and logging, which are other libraries or output; MD5, the
-- JSON library and the lexer and parser of the message compiler, which are copies or generated; its
-- rules for Python;
-- what the factories and timers of the environment do, which are parameters.
pub mod Prelude
pub mod Buffer
pub mod Packet
pub mod Receiver
pub mod MsgRouter
pub mod Pool
pub mod Sessions
pub mod Waiting
pub mod RouterCaster
pub mod Links
pub mod Sender
pub mod Base64
pub mod ConnectionPool
pub mod Handlers
pub mod Http
pub mod Weights
pub mod Peers
pub mod Workers
pub mod Redis
pub mod Reconnect
pub mod Mysql
pub mod Idlc
pub mod HttpClient
pub mod Log
