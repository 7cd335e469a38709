-- ===== src/Main.antt =====
-- src/main.cpp, and the constructor and `start` of ChatServer.cpp: the server on its address, its
-- functions, its three threads, and the timer that keeps the connections to MySQL alive.
pub mod Serves
mod Tests
use my_testserver.Prelude.{ℕ, ◌+◌, ◌*◌, true, Option, none, some, Bytes, codes}
use my_testserver.Prelude.Pairs.{Pair}
use my_testserver.Inet.{Arpa, create_address, to_ip_port}
use my_testserver.EventLoop.{run_every}
use my_testserver.TcpServer
use my_testserver.TcpServer.{
  TcpServer, create_server, set_connection_callback, set_message_callback, server_set_thread_num,
}
use my_testserver.TimerQueue.{TimerQueue}

-- The numbers of the functions `onConnection` and `onMessage`.
abbrev pub on_connection_function : ℕ
on_connection_function = 1

abbrev pub on_message_function : ℕ
on_message_function = 2

-- `server_`, with the timers of its loop; `timer_id` is what `runEvery` returned.
pub record ChatServer : Type 0 where
  pub server : TcpServer
  pub timers : TimerQueue
  pub timer_id : Pair

-- Three hours in microseconds.
abbrev pub keep_alive_delay : ℕ
keep_alive_delay = 60 * 60 * 3 * 1000000

-- The constructor, at the time `now`; `timer` is the address of the new timer, and `sequence` the
-- number of those before it.
unfoldable pub create_chat_server : ℕ → Bytes → Bytes → TimerQueue → ℕ → ℕ → ℕ → ChatServer
create_chat_server base ip_port name q timer sequence now =
    let s₁ =
      set_connection_callback (create_server base ip_port name) (some on_connection_function) in
    let s₂ = set_message_callback s₁ (some on_message_function) in
    let (timer_id, timers) = run_every q timer now true keep_alive_delay sequence in
    record { server = server_set_thread_num s₂ 3; timers = timers; timer_id = timer_id }

unfoldable pub start : ChatServer → (ℕ → ℕ) → ChatServer
start c start_loop = record c { server = TcpServer.start c.server start_loop }

-- `main` up to `loop`.
unfoldable pub main : Arpa → ℕ → TimerQueue → ℕ → ℕ → ℕ → (ℕ → ℕ) → ChatServer
unfolding create_chat_server start
main arpa base q timer sequence now start_loop =
    let addr = create_address arpa 9190 (codes "0.0.0.0") in
    start
      (create_chat_server base (to_ip_port arpa addr) (codes "mytestserver") q timer sequence now)
      start_loop
