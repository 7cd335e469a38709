-- ===== src/TcpServer/Run.antt =====
-- The map of connections against the book, from the start of the server.
use my_testserver.Prelude.{
  ℕ, ◌+◌, ◌^◌, ◌%◌, ◌<◌, ◌≤◌, ◌≡◌, refl, Option, List, length, Bytes, arith,
}
use my_testserver.Prelude.Assoc.{get}
use my_testserver.Prelude.Keys.{bytes_keys}
use my_testserver.ThreadPool.Turns.{advance}
use my_testserver.Inet.{Arpa, IsLawful, InetAddress, to_ip_port, length-to_ip_port_le}
use my_testserver.TcpServer.{
  UserCallbacks, TcpServer, create_server, set_connection_callback, set_message_callback,
  set_write_complete_callback, set_thread_init_callback, server_set_thread_num, start, conn_name,
}
use my_testserver.TcpServer.Book.{Event, run, no_entries, keep_book, InRange, accepted}
use my_testserver.TcpServer.Agree.{Agrees, run-Agrees}

-- The server of an address, with the functions of the user.
abbrev pub configured : Bytes → Bytes → ℕ → UserCallbacks → Option ℕ → TcpServer
configured ip_port name base user init =
    let s = set_connection_callback (create_server base ip_port name) user.connection_callback in
    let s' =
      set_write_complete_callback (set_message_callback s user.message_callback)
        user.write_complete_callback in
    set_thread_init_callback s' init

-- The same with `n` threads, started.
abbrev pub serving : TcpServer → ℕ → (ℕ → ℕ) → TcpServer
serving s n start_loop = start (server_set_thread_num s n) start_loop

serving-Agrees :
    (ip_port name : Bytes) (base n : ℕ) (user : UserCallbacks) (init : Option ℕ)
    (start_loop : ℕ → ℕ)
    → (short : length ip_port ≤ 21) → (some_loops : 0 < n)
    → Agrees
        (configured ip_port name base user init)
        base
        n
        init
        start_loop
        short
        some_loops
        (serving (configured ip_port name base user init) n start_loop)
        no_entries
unfolding start advance get
serving-Agrees ip_port name base n user init start_loop short some_loops = record {
  same_name = refl;
  same_ip_port = refl;
  same_user = refl;
  called = refl;
  next_id = refl;
  turn = refl;
  same_asked = refl;
  distinct = tt;
  looks = λ id h. refl;
  named = λ id conn h. absurd (ground arith);
}

-- Over every sequence of accepted sockets, failing accepts and closing connections of a started
-- server with n threads, n above 0, the map of connections, which is keyed by names, implements
-- a book keyed by numbers: the name of each number leads to the connection with that number
-- exactly while it has not closed; connection number k, from 0, is on the loop of thread k
-- modulo n; each connection has the callbacks that the user set; and each is established and
-- destroyed on its loop, in order; fewer than 2^31 - 1 connections are accepted, and inet_ntop
-- and ntohs keep to their documentation.
pub run-keep_book :
    (arpa : Arpa) (addr : InetAddress) (name : Bytes) (base n : ℕ) (user : UserCallbacks)
    (init : Option ℕ) (start_loop : ℕ → ℕ) (es : List Event) (id : ℕ)
    → IsLawful arpa
    → 0 < n
    → InRange es
    → accepted es + 1 < 2 ^ 31
    → id < 2 ^ 31
    → (let s₀ = configured (to_ip_port arpa addr) name base user init in
        let s = run (serving s₀ n start_loop) es in
        let book = keep_book (conn_name s₀) (λ k. start_loop (k % n)) user no_entries es in
        (get s.connections (conn_name s₀ id) ≡ book.live id)
        × (s.asked ≡ book.asked)
        × (s.next_conn_id ≡ book.count + 1))
run-keep_book arpa addr name base n user init start_loop es id lawful some_loops r h small =
    let short = length-to_ip_port_le arpa lawful addr in
    let s₀ = configured (to_ip_port arpa addr) name base user init in
    let a =
      run-Agrees s₀ base n init start_loop short some_loops (serving s₀ n start_loop) no_entries es
        (serving-Agrees (to_ip_port arpa addr) name base n user init start_loop short some_loops) r
        (omega arith) in
    (a.looks id small, a.same_asked, a.next_id)
