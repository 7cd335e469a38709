-- ===== src/TcpServer.antt =====
-- mymuduo/TcpServer.cpp and mymuduo/Acceptor.cpp: accepted sockets become named connections in a map,
-- each on a loop of the pool. `runInLoop` and `queueInLoop` on the loop of a connection are what the
-- server asks of that loop; the server's own steps run on its own loop.
pub mod Names
pub mod Book
pub mod Agree
pub mod Run
mod Tests
use my_testserver.Prelude.{
  ℕ, ◌+◌, Bool, true, false, Option, none, some, List, [], ◌∷◌, ◌++◌, take, Bytes, codes, ◌==◌,
  if◌then◌else◌,
}
use my_testserver.Prelude.Int.{pos, to_string}
use my_testserver.Prelude.Assoc.{assign, erase}
use my_testserver.Prelude.Keys.{bytes_keys}
use my_testserver.ThreadPool.{
  EventLoopThreadPool, create_pool, set_thread_num, start_pool, get_next_loop,
}

-- The functions of the user, each by a number; `none` is an empty function.
pub record UserCallbacks : Type 0 where
  pub connection_callback : Option ℕ
  pub message_callback : Option ℕ
  pub write_complete_callback : Option ℕ

-- What the server gives a connection.
pub record TcpConnection : Type 0 where
  pub loop : ℕ
  pub name : Bytes
  pub sockfd : ℕ
  pub peer_addr : Bytes
  pub user : UserCallbacks

-- What is asked of the loop of a connection: connectEstablished and connectDestroyed.
pub data Request : Type 0 where
  establishes destroys : TcpConnection → Request

-- `closed` lists the sockets that were accepted and closed at once.
pub record Acceptor : Type 0 where
  pub listenning : Bool
  -- Whether the channel waits for connections.
  pub reading : Bool
  pub has_callback : Bool
  pub closed : List ℕ

pub record TcpServer : Type 0 where
  pub ip_port : Bytes
  pub name : Bytes
  pub acceptor : Acceptor
  pub pool : EventLoopThreadPool
  pub started : ℕ
  pub next_conn_id : ℕ
  pub connections : List (Bytes × TcpConnection)
  pub asked : List (ℕ × Request)
  pub user : UserCallbacks
  pub thread_init_callback : Option ℕ

abbrev pub create_acceptor : Acceptor
create_acceptor = record { listenning = false; reading = false; has_callback = false; closed = [] }

abbrev pub set_new_connection_callback : Acceptor → Acceptor
set_new_connection_callback a = record a { has_callback = true }

abbrev pub listen : Acceptor → Acceptor
listen a = record a { listenning = true; reading = true }

-- The constructor; `ip_port` is `listenAddr.toIpPort()`.
abbrev pub create_server : ℕ → Bytes → Bytes → TcpServer
create_server base ip_port name = record {
  ip_port = ip_port;
  name = name;
  acceptor = set_new_connection_callback create_acceptor;
  pool = create_pool base;
  started = 0;
  next_conn_id = 1;
  connections = [];
  asked = [];
  user = record {
    connection_callback = none;
    message_callback = none;
    write_complete_callback = none;
  };
  thread_init_callback = none;
}

abbrev pub set_thread_init_callback : TcpServer → Option ℕ → TcpServer
set_thread_init_callback s cb = record s { thread_init_callback = cb }

abbrev pub set_connection_callback : TcpServer → Option ℕ → TcpServer
set_connection_callback s cb = record s { user = record s.user { connection_callback = cb } }

abbrev pub set_message_callback : TcpServer → Option ℕ → TcpServer
set_message_callback s cb = record s { user = record s.user { message_callback = cb } }

abbrev pub set_write_complete_callback : TcpServer → Option ℕ → TcpServer
set_write_complete_callback s cb = record s {
  user = record s.user { write_complete_callback = cb };
}

abbrev pub server_set_thread_num : TcpServer → ℕ → TcpServer
server_set_thread_num s n = record s { pool = set_thread_num s.pool n }

unfoldable pub start : TcpServer → (ℕ → ℕ) → TcpServer
start s start_loop =
    let s₁ : TcpServer = record s { started = s.started + 1 } in
    if s.started == 0
    then record s₁ {
      pool = start_pool s.pool s.thread_init_callback start_loop;
      acceptor = listen s.acceptor;
    }
    else s₁

-- `buf`, of 64 bytes with the closing zero.
unfoldable pub conn_suffix : Bytes → ℕ → Bytes
conn_suffix ip_port id = take 63 (codes "-" ++ (ip_port ++ (codes "#" ++ to_string (pos id))))

unfoldable pub conn_name : TcpServer → ℕ → Bytes
unfolding conn_suffix
conn_name s id = s.name ++ conn_suffix s.ip_port id

abbrev ask : TcpServer → ℕ → Request → TcpServer
ask s loop r = record s { asked = s.asked ++ ((loop, r) ∷ []) }

-- `int` does not wrap here: the theorems bound the number of connections.
unfoldable pub new_connection : TcpServer → ℕ → Bytes → TcpServer
unfolding conn_name
new_connection s sockfd peer_addr =
    let (io_loop, pool) = get_next_loop s.pool in
    let conn : TcpConnection = record {
      loop = io_loop;
      name = conn_name s s.next_conn_id;
      sockfd = sockfd;
      peer_addr = peer_addr;
      user = s.user;
    } in
    ask
      (record s {
        pool = pool;
        next_conn_id = s.next_conn_id + 1;
        connections = assign s.connections conn.name conn;
      })
      io_loop (establishes conn)

-- `Acceptor::handleRead`, with what `accept` returned; none is an error, which is logged.
unfoldable pub handle_accept : TcpServer → Option (ℕ × Bytes) → TcpServer
unfolding new_connection
handle_accept s none = s
handle_accept s (some (connfd, peer_addr)) =
    if s.acceptor.has_callback
    then new_connection s connfd peer_addr
    else record s { acceptor = record s.acceptor { closed = s.acceptor.closed ++ (connfd ∷ []) } }

unfoldable pub remove_connection_in_loop : TcpServer → TcpConnection → TcpServer
remove_connection_in_loop s conn =
    ask (record s { connections = erase s.connections conn.name }) conn.loop (destroys conn)

-- The destructor, over the entries of the map.
unfoldable pub destroy_server : TcpServer → List (Bytes × TcpConnection) → TcpServer
destroy_server s [] = s
destroy_server s ((name, conn) ∷ rest) = destroy_server (ask s conn.loop (destroys conn)) rest
