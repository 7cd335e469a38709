-- ===== src/Server.antt =====
-- src/ChatServer.cpp. The handlers run on the loops of the connections; one handler is one step
-- here, since the code has no lock around `connectionStates_`. `stale` is what the uninitialised
-- masking key of `parseFrame` holds.
pub mod Loop
pub mod Deliver
pub mod Keeps
pub mod Others
pub mod Segments
pub mod Reads
pub mod Delivery
pub mod Broadcast
pub mod Identity
pub mod Crash
mod Tests
use my_testserver.Prelude.Keys.{number_keys}
use my_testserver.Prelude.{
  ℕ, zero, suc, Bool, true, false, not, ◌&&◌, Option, none, some, List, [], ◌∷◌, Bytes, codes,
  is_empty, eqb, ◌==◌, ==_iff, if◌then◌else◌,
}
use my_testserver.Prelude.Assoc.{get, assign, erase}
use my_testserver.Prelude.Int.{ℤ, pos}
use my_testserver.Platform.{Platform, Field, text}
use my_testserver.Buffer.{Buffer, readable, readable_bytes, retrieve, retrieve_all_as_string}
use my_testserver.Frame.{Frame, Parsed, parsed, rejected, length_error, parse_frame, encode_frame}
use my_testserver.Net.{Net, conn_connected, send, shutdown}
use my_testserver.Http.{handle_http_request, is_websocket_upgrade, generate_handshake_response}
use my_testserver.Service.{
  Service, handle_register, handle_login, handle_logout, handle_chat, handle_heartbeat,
  handle_get_history, on_disconnect, keep_mysql_alive,
}
use my_testserver.Protocol.{
  msg_type_register, msg_type_login, msg_type_logout, msg_type_chat, msg_type_heartbeat,
  msg_type_get_history, msg_type_error, field_msg_type, field_username, field_password,
  field_content, field_limit, field_error,
}

pub record ConnectionState : Type 0 where
  pub is_websocket : Bool
  pub handshake_complete : Bool
  pub username : Bytes

abbrev pub fresh_state : ConnectionState
fresh_state = record { is_websocket = false; handshake_complete = false; username = [] }

pub record Server (Db : Type 0) : Type 0 where
  pub service : Service Db
  pub states : List (ℕ × ConnectionState)

-- How a handler ends. An exception that leaves a handler leaves the event loop, and ends the
-- process. `out_of_fuel` is no outcome of the program.
pub data Outcome (A : Type 0) : Type 0 where
  done : A → Outcome A
  thrown : Outcome A
  exited : Outcome A
  out_of_fuel : Outcome A

infixl 5 ◌>>=◌
abbrev pub ◌>>=◌ : {A B : Type 0} → Outcome A → (A → Outcome B) → Outcome B
done a >>= f = f a
thrown >>= f = thrown
exited >>= f = exited
out_of_fuel >>= f = out_of_fuel

-- A value, or an exception of the JSON library that is no `parse_error`.
abbrev pub or_throw : {A : Type 0} → Option A → Outcome A
or_throw none = thrown
or_throw (some a) = done a

-- `connectionStates_[conn]`, read: a missing entry is inserted empty.
abbrev pub found_state : Option ConnectionState → ConnectionState
found_state none = fresh_state
found_state (some state) = state

-- The name in a state, "" where there is none.
abbrev pub found_name : Option ConnectionState → Bytes
found_name none = []
found_name (some state) = state.username

module _ {Db : Type 0} where
  abbrev pub state_of : Server Db → ℕ → ConnectionState
  state_of s conn = found_state (get s.states conn)

  abbrev pub set_state : Server Db → ℕ → ConnectionState → Server Db
  set_state s conn state = record s { states = assign s.states conn state }

  abbrev pub set_username : Server Db → ℕ → Bytes → Server Db
  set_username s conn username = set_state s conn (record (state_of s conn) { username = username })

  abbrev pub net_of : Server Db → Net
  net_of s = s.service.net

  abbrev pub set_net : Server Db → Net → Server Db
  set_net s net = record s { service = record s.service { net = net } }

  unfoldable pub get_current_username : Server Db → ℕ → Bytes
  get_current_username s conn = found_name (get s.states conn)

module _ (platform : Platform) where
  open platform use {Db, Json, parse, get_text, value_text, value_int, dump}

  pub leave : Server Db → Option ConnectionState → Server Db
  leave s none = s
  leave s (some state) =
      if not (is_empty state.username)
      then record s { service = on_disconnect platform s.service state.username }
      else s

  unfoldable pub on_connection : Server Db → ℕ → Server Db
  unfolding leave
  on_connection s conn =
      if conn_connected (net_of s) conn
      then set_state s conn fresh_state
      else (let s₁ : Server Db = leave s (get s.states conn) in
          let s₂ : Server Db = record s₁ { states = erase s₁.states conn } in
          set_net s₂ (shutdown (net_of s₂) conn))

  abbrev pub kept_alive : Server Db → Option (Service Db) → Outcome (Server Db)
  kept_alive s none = exited
  kept_alive s (some service) = done (record s { service = service })

  unfoldable pub on_timer : Server Db → Outcome (Server Db)
  on_timer s = kept_alive s (keep_mysql_alive platform s.service)

  -- The branches of `handleWebSocketMessage`, one by one.
  unfoldable pub on_register : Server Db → ℕ → Json → Outcome (Server Db)
  on_register s conn j = do
    username ← or_throw (value_text j field_username)
    password ← or_throw (value_text j field_password)
    done (record s {
      service =
          handle_register platform s.service username password conn (state_of s conn).username;
    })

  -- `state.username` is set before the login is tried, and the history is sent whatever it gave.
  unfoldable pub on_login : Server Db → ℕ → Json → ℕ → Outcome (Server Db)
  on_login s conn j now = do
    username ← or_throw (value_text j field_username)
    password ← or_throw (value_text j field_password)
    let s₁ : Server Db = set_username s conn username
    let logged = handle_login platform s₁.service username password conn now
    done (record s₁ { service = handle_get_history platform logged conn (pos 50) })

  unfoldable pub on_logout : Server Db → ℕ → Server Db
  on_logout s conn =
      set_username
        (record s { service = handle_logout platform s.service (state_of s conn).username conn })
        conn []

  unfoldable pub on_chat : Server Db → ℕ → Json → ℕ → Outcome (Server Db)
  on_chat s conn j now = do
    content ← or_throw (value_text j field_content)
    done (record s {
      service = handle_chat platform s.service (state_of s conn).username content now;
    })

  unfoldable pub on_heartbeat : Server Db → ℕ → ℕ → Server Db
  on_heartbeat s conn now = record s {
    service = handle_heartbeat platform s.service (state_of s conn).username now;
  }

  unfoldable pub on_get_history : Server Db → ℕ → Json → Outcome (Server Db)
  on_get_history s conn j = do
    limit ← or_throw (value_int j field_limit (pos 50))
    done (record s { service = handle_get_history platform s.service conn limit })

  unfoldable pub dispatch : Server Db → ℕ → Json → Bytes → ℕ → Outcome (Server Db)
  dispatch s conn j msg_type now =
      if eqb msg_type msg_type_register
      then on_register s conn j
      else if eqb msg_type msg_type_login
      then on_login s conn j now
      else if eqb msg_type msg_type_logout
      then done (on_logout s conn)
      else if eqb msg_type msg_type_chat
      then on_chat s conn j now
      else if eqb msg_type msg_type_heartbeat
      then done (on_heartbeat s conn now)
      else if eqb msg_type msg_type_get_history
      then on_get_history s conn j
      else done s

  unfoldable pub invalid_json : Bytes
  invalid_json =
      dump ((field_msg_type, text msg_type_error) ∷ (field_error, text (codes "Invalid JSON")) ∷ [])

  -- Only a `parse_error` is caught.
  unfoldable pub handle_parsed : Server Db → ℕ → Option Json → ℕ → Outcome (Server Db)
  unfolding invalid_json dispatch
  handle_parsed s conn none now =
      done (set_net s (send (net_of s) conn (encode_frame invalid_json)))
  handle_parsed s conn (some j) now = do
    msg_type ← or_throw (get_text j field_msg_type)
    dispatch s conn j msg_type now

  unfoldable pub handle_websocket_message : Server Db → ℕ → Bytes → ℕ → Outcome (Server Db)
  unfolding handle_parsed
  handle_websocket_message s conn payload now =
      handle_parsed (set_state s conn (state_of s conn)) conn (parse payload) now

  -- One accepted frame: whether the loop goes on, and the state.
  unfoldable pub take_frame : Server Db → ℕ → Frame → ℕ → Outcome (Bool × Server Db)
  take_frame s conn f now =
      if f.opcode == 0x1
      then (if is_empty f.message
          then done (true, s)
          else (do s' ← handle_websocket_message s conn f.message now; done (true, s')))
      else if f.opcode == 0x8
      then done (false, set_net s (shutdown (net_of s) conn))
      else done (true, s)

  -- After a frame: on with the loop, or out of it, with the frame still in the buffer.
  abbrev pub resume :
      (Server Db → Outcome (Server Db × Buffer))
      → Buffer
      → Bool × Server Db
      → Outcome (Server Db × Buffer)
  resume next b (true, s) = next s
  resume next b (false, s) = done (s, b)

  -- One round, on what `parseFrame` says of the buffer. A frame without `fin` counts as incomplete.
  unfoldable pub frame_round :
      (Buffer → Server Db → Outcome (Server Db × Buffer))
      → Server Db
      → ℕ
      → Buffer
      → ℕ
      → Parsed
      → Outcome (Server Db × Buffer)
  unfolding take_frame
  frame_round next s conn b now rejected = done (s, b)
  frame_round next s conn b now length_error = thrown
  frame_round next s conn b now (parsed f) =
      if f.fin
      then (take_frame s conn f now >>= resume (next (retrieve b f.frame_len)) b)
      else done (s, b)

  -- The loop over the frames in the buffer.
  unfoldable pub frame_loop : ℕ → Bytes → Server Db → ℕ → Buffer → ℕ → Outcome (Server Db × Buffer)
  unfolding frame_round
  frame_loop zero stale s conn b now = out_of_fuel
  frame_loop (suc fuel) stale s conn b now = elim (readable_bytes b == 0) [
    | true ↦ done (s, b)
    | false ↦
        frame_round (λ b' s'. frame_loop fuel stale s' conn b' now) s conn b now
          (parse_frame stale (readable b))
  ]

  -- The handshake, on all bytes that are there.
  unfoldable pub shake_hands : Server Db → ℕ → Bytes → Server Db
  shake_hands s conn request =
      let (handled, net) = handle_http_request platform (net_of s) conn request in
      if handled
      then set_net s net
      else if is_websocket_upgrade request
      then set_state (set_net s (send net conn (generate_handshake_response platform request))) conn
          (record (state_of s conn) { is_websocket = true; handshake_complete = true })
      else set_net s
          (shutdown (send net conn (codes "HTTP/1.1 400 Bad Request\r\n\r\nBad Request")) conn)

  unfoldable pub on_message : ℕ → Bytes → Server Db → ℕ → Buffer → ℕ → Outcome (Server Db × Buffer)
  unfolding shake_hands frame_loop
  on_message fuel stale s conn b now =
      let s₁ : Server Db = set_state s conn (state_of s conn) in
      let state = state_of s conn in
      if not state.handshake_complete
      then (let (request, b') = retrieve_all_as_string b in done (shake_hands s₁ conn request, b'))
      else if state.is_websocket && state.handshake_complete
      then frame_loop fuel stale s₁ conn b now
      else done (s₁, b)
