-- ===== src/Service.antt =====
-- src/ChatService.cpp. A handler returns the new state of everything that it reaches; `now` is the
-- clock in seconds during the call. Logging is left out, but for LOG_FATAL, which exits.
pub mod Login
pub mod Chat
pub mod Events
pub mod Register
mod Tests
use my_testserver.Prelude.{
  ℕ, Bool, true, false, not, ◌&&◌, ◌||◌, Option, none, some, List, [], ◌∷◌, ◌++◌, map, Bytes, codes,
  is_empty, if◌then◌else◌,
}
use my_testserver.Prelude.Int.{ℤ}
use my_testserver.Platform.{Platform, Field, text, flag, number, names, rows}
use my_testserver.Net.{Net, conn_connected, send, shutdown}
use my_testserver.Frame.{encode_frame}
use my_testserver.Dao.{
  User, Message, insert_user, verify_user, user_exists, get_user_by_username, save_message,
  get_recent_messages, heart_beat,
}
use my_testserver.Session.{
  Sessions, add_session, remove_session, get_connection, get_online_users, is_online,
  update_heartbeat, broadcast_to_all,
}
use my_testserver.Protocol.{
  msg_type_register_resp, msg_type_login_resp, msg_type_logout_resp, msg_type_broadcast,
  msg_type_history, msg_type_heartbeat_resp, field_msg_type, field_success, field_error,
  field_sender, field_content, field_timestamp, field_server_time, field_online_users,
  field_messages,
}

-- `users_linked` and `messages_linked` are the `connected_` of the two database connections.
pub record Service (Db : Type 0) : Type 0 where
  pub sessions : Sessions
  pub net : Net
  pub db : Db
  pub users_linked : Bool
  pub messages_linked : Bool

module _ (platform : Platform) where
  open platform use {Db, dump}

  unfoldable pub send_response : Service Db → ℕ → Bytes → Service Db
  send_response s conn json = record s { net = send s.net conn (encode_frame json) }

  unfoldable pub create_response : Bytes → Bool → Bytes → Bytes
  create_response msg_type success error = dump (
      (field_msg_type, text msg_type)
      ∷ (field_success, flag success)
      ∷ (if is_empty error then [] else (field_error, text error) ∷ []))

  -- The answer of a handler that does nothing but report an error, or success.
  abbrev pub answer : Service Db → ℕ → Bytes → Bool → Bytes → Service Db
  answer s conn msg_type success error =
      send_response s conn (create_response msg_type success error)

  unfoldable pub handle_register : Service Db → Bytes → Bytes → ℕ → Bytes → Service Db
  unfolding send_response create_response
  handle_register s username password conn connection_username =
      if is_empty username || is_empty password
      then answer s conn msg_type_register_resp false
          (codes "Username and password cannot be empty")
      else (let (exists, db₁) = user_exists platform s.users_linked s.db username in
          let s₁ : Service Db = record s { db = db₁ } in
          if exists
          then answer s₁ conn msg_type_register_resp false (codes "Username already exists")
          else (let (success, db₂) = insert_user platform s₁.users_linked s₁.db username password in
              let s₂ : Service Db = record s₁ { db = db₂ } in
              if success
              then answer s₂ conn msg_type_register_resp true []
              else answer s₂ conn msg_type_register_resp false (codes "Registration failed")))

  unfoldable pub login_response : List Bytes → Bytes
  login_response users = dump (
      (field_msg_type, text msg_type_login_resp)
      ∷ (field_success, flag true)
      ∷ (field_online_users, names users)
      ∷ [])

  -- The last part of `handleLogin`: the query of the user is made, and its result is not used.
  unfoldable pub log_in : Service Db → Bytes → ℕ → ℕ → Service Db
  unfolding send_response login_response
  log_in s username conn now =
      let (user, db') = get_user_by_username platform s.users_linked s.db username in
      let online : Sessions = add_session s.sessions username conn now in
      send_response (record s { db = db'; sessions = online }) conn
        (login_response (get_online_users online))

  unfoldable pub handle_login : Service Db → Bytes → Bytes → ℕ → ℕ → Service Db
  unfolding send_response create_response log_in
  handle_login s username password conn now =
      if is_empty username || is_empty password
      then answer s conn msg_type_login_resp false (codes "Username and password cannot be empty")
      else (let (ok, db₁) = verify_user platform s.users_linked s.db username password in
          let s₁ : Service Db = record s { db = db₁ } in
          if not ok
          then answer s₁ conn msg_type_login_resp false (codes "Invalid username or password")
          else if is_online s₁.sessions username
          then answer s₁ conn msg_type_login_resp false (codes "User already logged in")
          else log_in s₁ username conn now)

  unfoldable pub logout_response : Bytes
  logout_response =
      dump ((field_msg_type, text msg_type_logout_resp) ∷ (field_success, flag true) ∷ [])

  unfoldable pub handle_logout : Service Db → Bytes → ℕ → Service Db
  unfolding send_response logout_response
  handle_logout s username conn =
      let s₁ : Service Db =
        send_response (record s { sessions = remove_session s.sessions username }) conn
          logout_response in
      record s₁ { net = shutdown s₁.net conn }

  unfoldable pub broadcast_message : Bytes → Bytes → ℕ → Bytes
  broadcast_message sender content now = dump (
      (field_msg_type, text msg_type_broadcast)
      ∷ (field_sender, text sender)
      ∷ (field_content, text content)
      ∷ (field_timestamp, number now)
      ∷ [])

  -- `handleChat` behind the lookup of the sender. The result of `saveMessage` is not looked at.
  unfoldable pub post : Service Db → Bytes → Bytes → ℕ → Option User → Service Db
  unfolding broadcast_message
  post s sender content now none = s
  post s sender content now (some user) =
      let (saved, db') = save_message platform s.messages_linked s.db user.id content in
      record s {
        db = db';
        net =
            broadcast_to_all s.net s.sessions (encode_frame (broadcast_message sender content now))
              [];
      }

  unfoldable pub handle_chat : Service Db → Bytes → Bytes → ℕ → Service Db
  unfolding post
  handle_chat s sender content now =
      if is_empty content || not (is_online s.sessions sender)
      then s
      else (let (user, db₁) = get_user_by_username platform s.users_linked s.db sender in
          post (record s { db = db₁ }) sender content now user)

  unfoldable pub heartbeat_response : ℕ → Bytes
  heartbeat_response now =
      dump ((field_msg_type, text msg_type_heartbeat_resp) ∷ (field_server_time, number now) ∷ [])

  beat_back : Service Db → ℕ → Option ℕ → Service Db
  unfolding send_response heartbeat_response
  beat_back s now none = s
  beat_back s now (some conn) =
      if conn_connected s.net conn then send_response s conn (heartbeat_response now) else s

  unfoldable pub handle_heartbeat : Service Db → Bytes → ℕ → Service Db
  unfolding beat_back
  handle_heartbeat s username now =
      let s₁ : Service Db = record s { sessions = update_heartbeat s.sessions username now } in
      beat_back s₁ now (get_connection s₁.sessions username)

  history_row : Message → List (Bytes × Bytes)
  history_row m =
      (field_sender, m.username) ∷ (field_content, m.content) ∷ (field_timestamp, m.timestamp) ∷ []

  unfoldable pub history_response : List Message → Bytes
  unfolding history_row
  history_response messages = dump (
      (field_msg_type, text msg_type_history)
      ∷ (field_messages, rows (map history_row messages))
      ∷ [])

  unfoldable pub handle_get_history : Service Db → ℕ → ℤ → Service Db
  unfolding send_response history_response
  handle_get_history s conn limit =
      let (messages, db') = get_recent_messages platform s.messages_linked s.db limit in
      send_response (record s { db = db' }) conn (history_response messages)

  unfoldable pub on_disconnect : Service Db → Bytes → Service Db
  on_disconnect s username =
      if not (is_empty username) && is_online s.sessions username
      then record s { sessions = remove_session s.sessions username }
      else s

  -- `none` is the `exit(-1)` of LOG_FATAL.
  unfoldable pub keep_mysql_alive : Service Db → Option (Service Db)
  keep_mysql_alive s =
      let (users_ok, db₁) = heart_beat platform s.users_linked s.db in
      let (messages_ok, db₂) = heart_beat platform s.messages_linked db₁ in
      if not users_ok then none else if not messages_ok then none else some (record s { db = db₂ })
