-- ===== src/Lib.antt =====
-- MyTestserver: a chat server over WebSocket, on a reactor network library of its own
-- (mymuduo). A connection's bytes arrive in a Buffer; ChatServer::onMessage takes the
-- handshake or whole frames out of it; the message of a frame is JSON and is dispatched to
-- ChatService, which asks the database, keeps the session table, and sends frames over the
-- connections.
--
-- Which file models which part:
--   mymuduo/Buffer.{h,cpp}: Buffer.antt (every operation; readv is the argument that says what
--   it moved), Buffer/Valid.antt, Buffer/Contents.antt, Buffer/Queue.antt.
--   src/WebSocketHandler.{h,cpp}, frames: Frame.antt (encodeFrame, parseFrame),
--   Frame/Wire.antt (the format of RFC 6455, written apart from the code), Frame/Lengths.antt,
--   Frame/Parse.antt, Frame/Stream.antt, Frame/Faults.antt.
--   src/WebSocketHandler.cpp, handshake, and ChatServer::handleHttpRequest: Http.antt,
--   Http/Laws.antt.
--   src/main.cpp and the constructor of src/ChatServer.cpp: Main.antt, Main/Serves.antt.
--   src/Protocol.h: Protocol.antt.
--   src/SessionManager.{h,cpp}: Session.antt, Session/Laws.antt.
--   db/: Dao.antt.
--   src/ChatService.{h,cpp}: Service.antt, Service/Login.antt, Service/Chat.antt,
--   Service/Register.antt, Service/Events.antt (sequences of calls).
--   src/ChatServer.{h,cpp}: Server.antt, Server/Loop.antt, Server/Deliver.antt,
--   Server/Keeps.antt (what handlers keep), Server/Others.antt (the events of other
--   connections), Server/Segments.antt, Server/Reads.antt and Server/Delivery.antt (a stream
--   cut into reads), Server/Broadcast.antt (a chat message on its way), Server/Identity.antt,
--   Server/Crash.antt.
--   mymuduo/TcpConnection.{h,cpp}: Net.antt as the chat server sees it, Connection.antt as it
--   works on its own loop; Connection/Stream.antt, Connection/Flush.antt,
--   Connection/Grows.antt, Connection/Steps.antt, Connection/Run.antt,
--   Connection/Elsewhere.antt (send from another thread), Connection/View.antt and
--   Connection/Sent.antt (many connections, under the chat server's view),
--   Connection/Interest.antt, Connection/Waiting.antt and Connection/Mirror.antt (a connection
--   with its channel in the poller).
--   mymuduo/EventLoopThreadPool.{h,cpp}: ThreadPool.antt, ThreadPool/Turns.antt.
--   mymuduo/TimerQueue.{h,cpp}, mymuduo/Timer.{h,cpp}: TimerQueue.antt, TimerQueue/Agree.antt,
--   TimerQueue/Reach.antt (the steps), TimerQueue/Fires.antt (handleRead),
--   TimerQueue/Cancel.antt.
--   mymuduo/Timestamp.{h,cpp}: Timestamp.antt, Timestamp/Text.antt.
--   mymuduo/EventLoop.{h,cpp}: EventLoop.antt, EventLoop/Steps.antt (the threads, one access
--   at a time), EventLoop/Invariant.antt, EventLoop/Rounds.antt (loop, round by round),
--   EventLoop/Handlers.antt, EventLoop/Functors.antt, EventLoop/Quitting.antt,
--   EventLoop/Quits.antt, EventLoop/Lifetime.antt (the constructors and destructors),
--   EventLoop/Places.antt, EventLoop/Cleanup.antt.
--   mymuduo/EventLoopThread.{h,cpp}: LoopThread.antt, LoopThread/Join.antt.
--   mymuduo/Thread.{h,cpp}: Thread.antt.
--   mymuduo/Logger.{h,cpp}: Logger.antt, Logger/Threads.antt.
--   mymuduo/Channel.{h,cpp}: Channel.antt, Channel/Events.antt (with the callbacks of a
--   connection), Channel/Closing.antt.
--   mymuduo/EPollPoller.{h,cpp}, mymuduo/Poller.{h,cpp}: Poller.antt, Poller/Kernel.antt
--   (epoll as a parameter), Poller/Registry.antt, Poller/Changes.antt, Poller/Calls.antt,
--   Poller/Reports.antt.
--   mymuduo/TcpServer.{h,cpp}, mymuduo/Acceptor.{h,cpp}: TcpServer.antt, TcpServer/Names.antt,
--   TcpServer/Book.antt (the events, and a book of the connections), TcpServer/Agree.antt,
--   TcpServer/Run.antt.
--   mymuduo/InetAddress.{h,cpp}: Inet.antt.
--   src/TestServer.{h,cpp}: Echo.antt, Echo/Stream.antt.
--   MySQL, the JSON library, OpenSSL, the file system: the parameters of Platform.antt;
--   Platform/Toy.antt is one instance, for the tests.
--
-- Names are those of the source in snake case. A handler takes the whole state and returns it
-- changed; where an exception may leave it, it returns an Outcome. Bytes are numbers, a size_t
-- wraps at 2^64 where the code computes with it.
--
-- The masking key of parseFrame is uninitialised when a frame is not masked; its four bytes
-- are the argument `stale`, and no theorem fixes them. The loop of onMessage runs on fuel;
-- each round consumes two bytes at least, so fuel above the number of readable bytes is enough
-- (Server/Loop.antt).
--
-- Not modelled: threads beyond the loop's queue of functors and the start and end of a loop
-- thread (one handler is one step, although the code runs the handlers of three loops without
-- a lock around connectionStates_; Net.antt takes a send for done at once, which
-- Connection/Sent.antt justifies on the connection's own loop only, and
-- Connection/Elsewhere.antt is what a send from another loop does), the places where the code
-- logs, the options of sockets, std::thread and the other system calls that Socket.cpp and
-- CurrentThread.cpp wrap. thirdparty/json.hpp is a library.
mod Prelude
pub mod Buffer
pub mod Frame
pub mod Platform
pub mod Net
pub mod Connection
pub mod ThreadPool
pub mod TimerQueue
pub mod EventLoop
pub mod Channel
pub mod Poller
pub mod Inet
pub mod Timestamp
pub mod Echo
pub mod Thread
pub mod Main
pub mod Logger
pub mod TcpServer
pub mod LoopThread
pub mod Dao
pub mod Session
pub mod Protocol
pub mod Service
pub mod Http
pub mod Server
