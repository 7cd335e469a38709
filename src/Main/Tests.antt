-- ===== src/Main/Tests.antt =====
-- The program with a queue that has no timers yet, as it takes two connections and loses one.
use my_testserver.Prelude.Keys.{bytes_keys}
use my_testserver.Prelude.{◌+◌, ◌%◌, ◌≡◌, true, false, some, List, [], ◌∷◌, codes, arith}
use my_testserver.Prelude.Assoc.{get}
use my_testserver.Prelude.Pairs.{contains}
use my_testserver.Inet.Toy.{plain, plain-IsLawful}
use my_testserver.TcpServer.{conn_name}
use my_testserver.TcpServer.Book.{Event, accepts, ends, run, keep_book, no_entries}
use my_testserver.TimerQueue.{TimerQueue, create_timer}
use my_testserver.Main.{main, keep_alive_delay}
use my_testserver.Main.Serves.{chat_functions, idle_server, main-keep_book}

abbrev no_timers : TimerQueue
no_timers = record {
  timer = λ id. create_timer 0 true 0 0;
  timers = [];
  active = [];
  canceling = [];
  calling = false;
  armed = 0;
}

abbrev visits : List Event
visits = accepts (some (5, codes "1.2.3.4:5")) ∷ accepts (some (6, codes "1.2.3.4:6")) ∷ ends 1 ∷ []

main-keep_book_example :
    (let c = main plain 9 no_timers 4 1 70 (λ i. 100 + i) in
      let s = run c.server visits in
      let name_of = conn_name (idle_server plain 9) in
      let book = keep_book name_of (λ k. 100 + k % 3) chat_functions no_entries visits in
      (get s.connections (name_of 2) ≡ book.live 2)
      × (s.asked ≡ book.asked)
      × (contains c.timers.timers (70 + keep_alive_delay, 4) ≡ true)
      × ((c.timers.timer 4).repeat ≡ true)
      × ((c.timers.timer 4).delay ≡ keep_alive_delay))
main-keep_book_example =
    main-keep_book plain 9 no_timers 4 1 70 (λ i. 100 + i) visits 2 plain-IsLawful (omega arith, tt)
      (omega arith) (omega arith)
