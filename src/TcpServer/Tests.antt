-- ===== src/TcpServer/Tests.antt =====
-- A server with two threads that takes three connections and loses one.
use my_testserver.Prelude.{◌+◌, ◌%◌, ◌≡◌, none, some, List, [], ◌∷◌, codes, arith}
use my_testserver.Prelude.Assoc.{get}
use my_testserver.Prelude.Keys.{bytes_keys}
use my_testserver.Inet.{InetAddress, create_address, to_ip_port}
use my_testserver.Inet.Toy.{plain, plain-IsLawful}
use my_testserver.TcpServer.{UserCallbacks, conn_name}
use my_testserver.TcpServer.Book.{Event, accepts, ends, run, keep_book, no_entries}
use my_testserver.TcpServer.Run.{configured, serving, run-keep_book}

abbrev addr : InetAddress
addr = create_address plain 9190 (codes "0.0.0.0")

abbrev life : List Event
life =
    accepts (some (5, codes "1.2.3.4:5"))
    ∷ accepts none
    ∷ accepts (some (6, codes "1.2.3.4:6"))
    ∷ ends 1
    ∷ accepts (some (5, codes "1.2.3.4:7"))
    ∷ []

abbrev functions : UserCallbacks
functions = record {
  connection_callback = some 1;
  message_callback = some 2;
  write_complete_callback = none;
}

run-keep_book_example :
    (let s₀ = configured (to_ip_port plain addr) (codes "Chat") 9 functions (some 3) in
      let s = run (serving s₀ 2 (λ i. 100 + i)) life in
      let book = keep_book (conn_name s₀) (λ k. 100 + k % 2) functions no_entries life in
      (get s.connections (conn_name s₀ 3) ≡ book.live 3)
      × (s.asked ≡ book.asked)
      × (s.next_conn_id ≡ book.count + 1))
run-keep_book_example =
    run-keep_book plain addr (codes "Chat") 9 2 functions (some 3) (λ i. 100 + i) life 3
      plain-IsLawful (omega arith) (omega arith, tt) (omega arith) (omega arith)
