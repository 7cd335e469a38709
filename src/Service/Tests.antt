-- ===== src/Service/Tests.antt =====
-- Runs of ChatService.cpp, and the theorems about it at inputs that meet their hypotheses.
use my_testserver.Prelude.{
  Bool, false, starts_with, ℕ, ◌≡◌, refl, true, some, List, [], ◌∷◌, Bytes, codes, eqb,
}
use my_testserver.Prelude.Assoc.{get, has}
use my_testserver.Platform.Toy.{toy, memory, ann, pw}
use my_testserver.Net.{connected}
use my_testserver.Session.{is_online, get_connection, add_session}
use my_testserver.Session.Laws.{IsValid}
use my_testserver.Service.{Service, handle_register, handle_login}
use my_testserver.Dao.{user_exists, get_user_by_username, query, insert_sql, select_sql, first_user}
use my_testserver.Service.Register.{Stores, looked_up, register_then_login}
use my_testserver.Service.Events.{
  Event, logs_in, chats, beats, logs_out, disconnects, Stays, serve_all, serve_all-keeps,
}

abbrev bob : Bytes
bob = codes "bob"

abbrev quiet : Service ℕ
quiet = record {
  sessions = [];
  net = record { state = λ conn. connected; sent = [] };
  db = 0;
  users_linked = true;
  messages_linked = true;
}

abbrev ann_online : Service ℕ
ann_online = record quiet { sessions = (ann, record { conn = 1; last_heartbeat = 7 }) ∷ [] }

abbrev day : List Event
day =
    logs_in ann pw 2 8
    ∷ chats ann (codes "hi") 9
    ∷ beats ann 10
    ∷ logs_out bob 3
    ∷ disconnects bob
    ∷ []

one-IsValid : IsValid ann_online.sessions
unfolding has
one-IsValid = (refl, tt)

day-Stays : Stays ann day
unfolding eqb
day-Stays = (refl, (refl, (refl, (refl, (refl, tt)))))

serve_all-keeps_example : get_connection (serve_all toy ann_online day).sessions ann ≡ some 1
unfolding get_connection get eqb
serve_all-keeps_example = serve_all-keeps toy ann_online ann day 1 one-IsValid day-Stays refl

abbrev empty_table : Service Bool
empty_table = record {
  sessions = [];
  net = record { state = λ conn. connected; sent = [] };
  db = false;
  users_linked = true;
  messages_linked = true;
}

ann-unknown : (user_exists memory true false ann).0 ≡ false
unfolding user_exists get_user_by_username query select_sql first_user starts_with
ann-unknown = refl

ann-Stores : Stores memory (looked_up memory empty_table ann) ann pw
unfolding user_exists get_user_by_username query insert_sql select_sql starts_with
ann-Stores = record { accepted = refl; selected = refl; id = codes "1"; found = refl }

register_then_login_example :
    (handle_login memory (handle_register memory empty_table ann pw 4 []) ann pw 4 7).sessions
    ≡ add_session [] ann 4 7
unfolding is_online has
register_then_login_example =
    register_then_login memory empty_table ann pw 4 [] 7 refl refl ann-unknown refl ann-Stores
