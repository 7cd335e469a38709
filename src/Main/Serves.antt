-- ===== src/Main/Serves.antt =====
-- What the program serves once it runs.
use my_testserver.Prelude.Keys.{bytes_keys}
use my_testserver.Prelude.{
  ℕ, ◌+◌, ◌^◌, ◌%◌, ◌<◌, ◌≡◌, refl, ap, ◌∙◌, inl, inr, true, Bool-cases, none, some, List, codes,
  arith, ==_iff,
}
use my_testserver.Prelude.Assoc.{get}
use my_testserver.Prelude.Pairs.{contains, insert, contains-insert}
use my_testserver.Inet.{Arpa, IsLawful, create_address, to_ip_port}
use my_testserver.TcpServer.{UserCallbacks, TcpServer, conn_name}
use my_testserver.TcpServer.Book.{Event, run, no_entries, keep_book, InRange, accepted}
use my_testserver.TcpServer.Run.{configured, run-keep_book}
use my_testserver.Timestamp.{add_time}
use my_testserver.TimerQueue.{
  TimerQueue, add_timer, add_timer_in_loop, insert_timer, create_timer, set_timer, entry,
  is_earliest,
}
use my_testserver.Main.{
  on_connection_function, on_message_function, keep_alive_delay, create_chat_server, start, main,
}

-- The functions of the chat server.
abbrev pub chat_functions : UserCallbacks
chat_functions = record {
  connection_callback = some on_connection_function;
  message_callback = some on_message_function;
  write_complete_callback = none;
}

-- The server before its threads.
abbrev pub idle_server : Arpa → ℕ → TcpServer
idle_server arpa base =
    configured (to_ip_port arpa (create_address arpa 9190 (codes "0.0.0.0"))) (codes "mytestserver")
      base chat_functions none

added :
    (q : TimerQueue) (id : ℕ)
    → ((add_timer_in_loop q id).timers ≡ insert q.timers (entry q id))
      × ((add_timer_in_loop q id).timer ≡ q.timer)
unfolding add_timer_in_loop insert_timer
added q id = elim (Bool-cases (is_earliest q.timers (q.timer id).expiration)) [
  | inl e ↦ rw e (refl, refl)
  | inr e ↦ rw e (refl, refl)
]

timer_waits :
    (arpa : Arpa) (base : ℕ) (q : TimerQueue) (timer sequence now : ℕ) (start_loop : ℕ → ℕ)
    → (let c = main arpa base q timer sequence now start_loop in
        (contains c.timers.timers (now + keep_alive_delay, timer) ≡ true)
        × ((c.timers.timer timer).repeat ≡ true)
        × ((c.timers.timer timer).delay ≡ keep_alive_delay))
unfolding main create_chat_server start add_timer
timer_waits arpa base q timer sequence now start_loop =
    let t = create_timer (add_time now keep_alive_delay) true keep_alive_delay sequence in
    let q' = set_timer q timer t in
    let (in_set, same) = added q' timer in
    let at : q'.timer timer ≡ t = ground (arith, ==_iff timer timer) in
    (
      ap (λ s. contains s (now + keep_alive_delay, timer))
            (in_set ∙ ap (λ u. insert q.timers (u.expiration, timer)) at)
          ∙ contains-insert q.timers (now + keep_alive_delay, timer) (now + keep_alive_delay, timer)
          ∙ ground
              (arith, ==_iff timer timer, ==_iff (now + keep_alive_delay) (now + keep_alive_delay)),
      ap (λ timers. (timers timer).repeat) same ∙ ap (λ u. u.repeat) at,
      ap (λ timers. (timers timer).delay) same ∙ ap (λ u. u.delay) at,
    )

-- Over every sequence of accepted sockets, failing accepts and closing connections of the
-- program that main starts, the map of connections implements a book keyed by numbers: the name
-- of each number leads to the connection with that number exactly while it has not closed;
-- connection number k, from 0, has onConnection and onMessage of ChatServer for its callbacks,
-- and is established and destroyed, in order, on the loop of thread k modulo 3; and main leaves
-- a timer in the set that expires three hours later and repeats with that interval; fewer than
-- 2^31 - 1 connections are accepted, and inet_ntop and ntohs keep to their documentation.
pub main-keep_book :
    (arpa : Arpa) (base : ℕ) (q : TimerQueue) (timer sequence now : ℕ) (start_loop : ℕ → ℕ)
    (es : List Event) (id : ℕ)
    → IsLawful arpa
    → InRange es
    → accepted es + 1 < 2 ^ 31
    → id < 2 ^ 31
    → (let c = main arpa base q timer sequence now start_loop in
        let s = run c.server es in
        let name_of = conn_name (idle_server arpa base) in
        let book = keep_book name_of (λ k. start_loop (k % 3)) chat_functions no_entries es in
        (get s.connections (name_of id) ≡ book.live id)
        × (s.asked ≡ book.asked)
        × (contains c.timers.timers (now + keep_alive_delay, timer) ≡ true)
        × ((c.timers.timer timer).repeat ≡ true)
        × ((c.timers.timer timer).delay ≡ keep_alive_delay))
unfolding main create_chat_server start
main-keep_book arpa base q timer sequence now start_loop es id lawful r h small =
    let served =
      run-keep_book arpa (create_address arpa 9190 (codes "0.0.0.0")) (codes "mytestserver") base 3
        chat_functions none start_loop es id lawful (omega arith) r h small in
    let waits = timer_waits arpa base q timer sequence now start_loop in
    (served.0, served.1, waits.0, waits.1, waits.2)
