-- ===== src/Session.antt =====
-- src/SessionManager.cpp: who is online, over which connection. Each method holds the mutex from
-- start to end, so a method is one step; `now` is what the clock says in it.
pub mod Laws
mod Tests
use my_testserver.Prelude.{
  ℕ, Bool, not, ◌&&◌, Option, none, some, List, [], ◌∷◌, map, Bytes, eqb, eqb_iff, if◌then◌else◌,
}
use my_testserver.Prelude.Keys.{bytes_keys}
use my_testserver.Prelude.Assoc.{get, has, assign, erase}
use my_testserver.Net.{Net, conn_connected, send}

pub record Session : Type 0 where
  pub conn : ℕ
  pub last_heartbeat : ℕ

abbrev pub Sessions : Type 0
Sessions = List (Bytes × Session)

unfoldable pub add_session : Sessions → Bytes → ℕ → ℕ → Sessions
add_session sessions username conn now =
    assign sessions username (record { conn = conn; last_heartbeat = now })

pub remove_session : Sessions → Bytes → Sessions
remove_session sessions username = erase sessions username

conn_of : Option Session → Option ℕ
conn_of none = none
conn_of (some session) = some session.conn

unfoldable pub get_connection : Sessions → Bytes → Option ℕ
unfolding conn_of
get_connection sessions username = conn_of (get sessions username)

pub get_online_users : Sessions → List Bytes
get_online_users sessions = map (λ entry. entry.0) sessions

unfoldable pub is_online : Sessions → Bytes → Bool
is_online sessions username = has sessions username

touched : Sessions → Bytes → ℕ → Option Session → Sessions
touched sessions username now none = sessions
touched sessions username now (some session) =
    assign sessions username (record session { last_heartbeat = now })

pub update_heartbeat : Sessions → Bytes → ℕ → Sessions
unfolding touched
update_heartbeat sessions username now = touched sessions username now (get sessions username)

-- The loop of `broadcastToAll`.
pub broadcast_to_all : Net → Sessions → Bytes → Bytes → Net
broadcast_to_all net [] message exclude = net
broadcast_to_all net ((username, session) ∷ rest) message exclude =
    broadcast_to_all
      (if not (eqb username exclude) && conn_connected net session.conn
        then send net session.conn message
        else net)
      rest message exclude
