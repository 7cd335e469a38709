-- ===== src/Server/Keeps.antt =====
-- ChatServer::handleWebSocketMessage keeps the flags of the connection: once the handshake is done,
-- it stays done.
use my_testserver.Prelude.Keys.{number_keys}
use my_testserver.Prelude.{
  ℕ, ◌≡◌, refl, ap, [], ◌∙◌, true, ◌&&◌, Option, none, some, List, Bytes, arith, ==_iff,
}
use my_testserver.Prelude.Assoc.{get, assign, get-assign, assign-get}
use my_testserver.Prelude.Int.{pos}
use my_testserver.Platform.{Platform}
use my_testserver.Protocol.{
  field_msg_type, field_username, field_password, field_content, field_limit,
}
use my_testserver.Server.{
  Server, ConnectionState, Outcome, done, thrown, exited, out_of_fuel, ◌>>=◌, or_throw, found_state,
  handle_websocket_message, handle_parsed, dispatch, on_register, on_login, on_logout, on_chat,
  on_heartbeat, on_get_history,
}
use my_testserver.Server.Loop.{speaks_websocket, seen}

abbrev pub States : Type 0
States = List (ℕ × ConnectionState)

-- What holds wherever a handler returns.
abbrev pub Ends : {A : Type 0} → (A → Type 0) → Outcome A → Type 0
Ends P (done a) = P a
Ends P thrown = Unit {0}
Ends P exited = Unit {0}
Ends P out_of_fuel = Unit {0}

pub bind-Ends :
    {A B : Type 0} (P : A → Type 0) (Q : B → Type 0) (m : Outcome A) (f : A → Outcome B)
    → Ends P m
    → ((a : A) → P a → Ends Q (f a))
    → Ends Q (m >>= f)
bind-Ends P Q (done a) f h k = k a h
bind-Ends P Q thrown f h k = tt
bind-Ends P Q exited f h k = tt
bind-Ends P Q out_of_fuel f h k = tt

abbrev pub After : {Db : Type 0} → (States → Type 0) → Outcome (Server Db) → Type 0
After Holds m = Ends (λ s. Holds s.states) m

-- The handshake of a connection is done.
abbrev pub Speaks : ℕ → States → Type 0
Speaks conn states =
    ((found_state (get states conn)).is_websocket
      && (found_state (get states conn)).handshake_complete)
    ≡ true

abbrev pub StaysOpen : {Db : Type 0} → ℕ → Outcome (Server Db) → Type 0
StaysOpen conn m = After (Speaks conn) m

module _ {Db : Type 0} where
  seen_states :
      (s : Server Db) (conn : ℕ) (state : Option ConnectionState)
      → get s.states conn ≡ state
      → ((found_state state).is_websocket && (found_state state).handshake_complete) ≡ true
      → assign s.states conn (found_state state) ≡ s.states
  seen_states s conn none e h = absurd (cc)
  seen_states s conn (some state) e h = assign-get s.states conn state e

  -- Looking a connection up changes nothing once its handshake is done.
  pub seen_same : (s : Server Db) (conn : ℕ) → speaks_websocket s conn ≡ true → seen s conn ≡ s
  seen_same s conn h =
      ap (λ states. record s { states = states }) (seen_states s conn (get s.states conn) refl h)

-- `Holds` is kept by looking a connection up, and by naming its user.
module _ (platform : Platform) (Holds : States → Type 0) (conn : ℕ)
    (looks : (states : States)
      → Holds states
      → Holds (assign states conn (found_state (get states conn))))
    (names : (states : States) (username : Bytes)
      → Holds states
      → Holds (
          assign states conn
            (record (found_state (get states conn)) { username = username }))) where
  open platform use {Db, Json, parse, get_text, value_text, value_int}

  -- A value of the JSON library, or an exception.
  or_throw-After :
      {A : Type 0} (a : Option A) (f : A → Outcome (Server Db))
      → ((x : A) → After Holds (f x))
      → After Holds (or_throw a >>= f)
  or_throw-After none f h = tt
  or_throw-After (some x) f h = h x

  login-After :
      (s : Server Db) (j : Json) (now : ℕ)
      → Holds s.states
      → After Holds (on_login platform s conn j now)
  unfolding on_login
  login-After s j now h = or_throw-After (value_text j field_username) _ λ username.
      or_throw-After (value_text j field_password) _ λ password. names s.states username h

  register-After :
      (s : Server Db) (j : Json) → Holds s.states → After Holds (on_register platform s conn j)
  unfolding on_register
  register-After s j h =
      or_throw-After (value_text j field_username) _
        λ username. or_throw-After (value_text j field_password) _ λ password. h

  chat-After :
      (s : Server Db) (j : Json) (now : ℕ)
      → Holds s.states
      → After Holds (on_chat platform s conn j now)
  unfolding on_chat
  chat-After s j now h = or_throw-After (value_text j field_content) _ λ content. h

  history-After :
      (s : Server Db) (j : Json) → Holds s.states → After Holds (on_get_history platform s conn j)
  unfolding on_get_history
  history-After s j h = or_throw-After (value_int j field_limit (pos 50)) _ λ limit. h

  dispatch-After :
      (s : Server Db) (j : Json) (msg_type : Bytes) (now : ℕ)
      → Holds s.states
      → After Holds (dispatch platform s conn j msg_type now)
  unfolding dispatch on_logout on_heartbeat
  dispatch-After s j msg_type now h = ground (
    arith,
    login-After s j now h,
    register-After s j h,
    names s.states [] h,
    chat-After s j now h,
    history-After s j h,
  )

  pub handler-After :
      (s : Server Db) (message : Bytes) (now : ℕ)
      → Holds s.states
      → After Holds (handle_websocket_message platform s conn message now)
  unfolding handle_websocket_message handle_parsed
  handler-After s message now h = parsed-After (seen s conn) (parse message) (looks s.states h)
    where
      parsed-After :
          (t : Server Db) (j : Option Json)
          → Holds t.states
          → After Holds (handle_parsed platform t conn j now)
      parsed-After t none k = k
      parsed-After t (some j) k =
          or_throw-After (get_text j field_msg_type) _ λ msg_type. dispatch-After t j msg_type now k

-- After the handshake, a message that is handled leaves the connection in the same protocol.
module _ (platform : Platform) where
  open platform use {Db}

  Speaks-assign :
      (conn : ℕ) (states : States) (state : ConnectionState)
      → (state.is_websocket && state.handshake_complete) ≡ true
      → Speaks conn (assign states conn state)
  Speaks-assign conn states state h =
      ap (λ t. (found_state t).is_websocket && (found_state t).handshake_complete)
        {x = get (assign states conn state) conn} {y = some state}
        (ground (arith, ==_iff conn conn, get-assign states conn conn state))
      ∙ h

  pub handler-StaysOpen :
      (s : Server Db) (conn : ℕ) (message : Bytes) (now : ℕ)
      → speaks_websocket s conn ≡ true
      → StaysOpen conn (handle_websocket_message platform s conn message now)
  handler-StaysOpen s conn message now h =
      handler-After platform (Speaks conn) conn
        (λ states k. Speaks-assign conn states (found_state (get states conn)) k)
        (λ states username k.
          Speaks-assign conn states (record (found_state (get states conn)) { username = username })
            k)
        s message now h
