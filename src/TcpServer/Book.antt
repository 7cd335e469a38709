-- ===== src/TcpServer/Book.antt =====
-- The events of a server, and a book of its connections that knows each by its number.
use my_testserver.Prelude.{
  ℕ, suc, ◌+◌, ◌^◌, ◌<◌, Option, none, some, List, [], ◌∷◌, ◌++◌, Bytes, ◌==◌, if◌then◌else◌,
}
use my_testserver.Prelude.Assoc.{get}
use my_testserver.Prelude.Keys.{bytes_keys}
use my_testserver.TcpServer.{
  UserCallbacks, TcpConnection, Request, establishes, destroys, TcpServer, conn_name, handle_accept,
  remove_connection_in_loop,
}

-- What happens to a server: `accept` returns a socket or fails, and connection number `id` closes, if
-- it is still there.
pub data Event : Type 0 where
  accepts : Option (ℕ × Bytes) → Event
  ends : ℕ → Event

abbrev pub end_found : TcpServer → Option TcpConnection → TcpServer
end_found s none = s
end_found s (some conn) = remove_connection_in_loop s conn

unfoldable pub step : TcpServer → Event → TcpServer
step s (accepts result) = handle_accept s result
step s (ends id) = end_found s (get s.connections (conn_name s id))

unfoldable pub run : TcpServer → List Event → TcpServer
unfolding step
run s [] = s
run s (e ∷ es) = run (step s e) es

-- `count` connections were made; `live` are those of them that have not closed.
pub record Book : Type 0 where
  pub count : ℕ
  pub live : ℕ → Option TcpConnection
  pub asked : List (ℕ × Request)

abbrev pub no_entries : Book
no_entries = record { count = 0; live = λ id. none; asked = [] }

module _ (name_of : ℕ → Bytes) (loop_of : ℕ → ℕ) (user : UserCallbacks) where
  abbrev pub enters : Book → ℕ → Bytes → Book
  enters b sockfd peer_addr =
      let conn : TcpConnection = record {
        loop = loop_of b.count;
        name = name_of (b.count + 1);
        sockfd = sockfd;
        peer_addr = peer_addr;
        user = user;
      } in
      record {
        count = b.count + 1;
        live = λ id. if id == b.count + 1 then some conn else b.live id;
        asked = b.asked ++ ((conn.loop, establishes conn) ∷ []);
      }

  abbrev pub strikes : Book → ℕ → TcpConnection → Book
  strikes b id conn = record b {
    live = λ j. if j == id then none else b.live j;
    asked = b.asked ++ ((conn.loop, destroys conn) ∷ []);
  }

  abbrev pub strike_found : Book → ℕ → Option TcpConnection → Book
  strike_found b id none = b
  strike_found b id (some conn) = strikes b id conn

  unfoldable pub note : Book → Event → Book
  note b (accepts none) = b
  note b (accepts (some (sockfd, peer_addr))) = enters b sockfd peer_addr
  note b (ends id) = strike_found b id (b.live id)

  unfoldable pub keep_book : Book → List Event → Book
  unfolding note
  keep_book b [] = b
  keep_book b (e ∷ es) = keep_book (note b e) es

-- Numbers of connections are of type `int`, and so is the next one.
abbrev pub InRange : List Event → Type 0
InRange [] = Unit {0}
InRange (accepts result ∷ es) = InRange es
InRange (ends id ∷ es) = (id < 2 ^ 31) × InRange es

abbrev pub accepted : List Event → ℕ
accepted [] = 0
accepted (accepts none ∷ es) = accepted es
accepted (accepts (some from) ∷ es) = suc (accepted es)
accepted (ends id ∷ es) = accepted es
