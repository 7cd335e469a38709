-- ===== src/Service/Events.antt =====
-- ChatService.cpp over any sequence of calls: what becomes of the session table.
use my_testserver.Prelude.{
  ℕ, ◌≡◌, refl, sym, ap, ◌∙◌, inl, inr, Bool, false, not, ◌&&◌, Option, none, some, List, [], ◌∷◌,
  Bytes, eqb, is_empty, arith, Bool-cases, subst,
}
use my_testserver.Prelude.Int.{ℤ}
use my_testserver.Platform.{Platform}
use my_testserver.Session.{update_heartbeat, get_connection, is_online}
use my_testserver.Session.Laws.{
  IsValid, add_session-IsValid, remove_session-IsValid, update_heartbeat-IsValid,
  get_connection-remove_session, get_connection-update_heartbeat,
}
use my_testserver.Service.{
  Service, send_response, beat_back, handle_register, handle_login, handle_logout, handle_chat,
  handle_heartbeat, handle_get_history, on_disconnect,
}
use my_testserver.Service.Login.{accepts, handle_login-sessions, handle_login-keeps}
use my_testserver.Service.Chat.{handle_chat-sessions}

-- A call of the service by the server, with the clock where the call reads it.
pub data Event : Type 0 where
  registers : Bytes → Bytes → ℕ → Bytes → Event
  logs_in : Bytes → Bytes → ℕ → ℕ → Event
  logs_out : Bytes → ℕ → Event
  chats : Bytes → Bytes → ℕ → Event
  beats : Bytes → ℕ → Event
  asks_history : ℕ → ℤ → Event
  disconnects : Bytes → Event

-- Whether an event may end the session of a user.
abbrev pub ends : Bytes → Event → Bool
ends user (registers username password conn current) = false
ends user (logs_in username password conn now) = false
ends user (logs_out username conn) = eqb username user
ends user (chats sender content now) = false
ends user (beats username now) = false
ends user (asks_history conn limit) = false
ends user (disconnects username) = eqb username user

abbrev pub Stays : Bytes → List Event → Type 0
Stays user [] = Unit {0}
Stays user (e ∷ es) = (ends user e ≡ false) × Stays user es

module _ (platform : Platform) where
  open platform use {Db}

  unfoldable pub serve : Service Db → Event → Service Db
  serve s (registers username password conn current) =
      handle_register platform s username password conn current
  serve s (logs_in username password conn now) = handle_login platform s username password conn now
  serve s (logs_out username conn) = handle_logout platform s username conn
  serve s (chats sender content now) = handle_chat platform s sender content now
  serve s (beats username now) = handle_heartbeat platform s username now
  serve s (asks_history conn limit) = handle_get_history platform s conn limit
  serve s (disconnects username) = on_disconnect platform s username

  unfoldable pub serve_all : Service Db → List Event → Service Db
  serve_all s [] = s
  serve_all s (e ∷ es) = serve_all (serve s e) es

  handle_register-sessions :
      (s : Service Db) (username password : Bytes) (conn : ℕ) (current : Bytes)
      → (handle_register platform s username password conn current).sessions ≡ s.sessions
  unfolding handle_register send_response
  handle_register-sessions s username password conn current = ground arith

  beat_back-sessions :
      (s : Service Db) (now : ℕ) (conn : Option ℕ)
      → (beat_back platform s now conn).sessions ≡ s.sessions
  unfolding beat_back send_response
  beat_back-sessions s now none = refl
  beat_back-sessions s now (some conn) = ground arith

  handle_heartbeat-sessions :
      (s : Service Db) (username : Bytes) (now : ℕ)
      → (handle_heartbeat platform s username now).sessions
        ≡ update_heartbeat s.sessions username now
  unfolding handle_heartbeat
  handle_heartbeat-sessions s username now =
      beat_back-sessions (record s { sessions = update_heartbeat s.sessions username now }) now
        (get_connection (update_heartbeat s.sessions username now) username)

  serve-IsValid : (s : Service Db) (e : Event) → IsValid s.sessions → IsValid (serve s e).sessions
  unfolding serve handle_logout handle_get_history on_disconnect send_response
  serve-IsValid s (registers username password conn current) v =
      subst IsValid (sym (handle_register-sessions s username password conn current)) v
  serve-IsValid s (logs_in username password conn now) v =
      subst IsValid (sym (handle_login-sessions platform s username password conn now))
        (elim (Bool-cases (accepts platform s username password)) [
          | inl a ↦ rw a (add_session-IsValid s.sessions username conn now v)
          | inr a ↦ rw a v
        ])
  serve-IsValid s (logs_out username conn) v = remove_session-IsValid s.sessions username v
  serve-IsValid s (chats sender content now) v =
      subst IsValid (sym (handle_chat-sessions platform s sender content now)) v
  serve-IsValid s (beats username now) v =
      subst IsValid (sym (handle_heartbeat-sessions s username now))
        (update_heartbeat-IsValid s.sessions username now v)
  serve-IsValid s (asks_history conn limit) v = v
  serve-IsValid s (disconnects username) v =
      elim (Bool-cases (not (is_empty username) && is_online s.sessions username)) [
        | inl a ↦ rw a (remove_session-IsValid s.sessions username v)
        | inr a ↦ rw a v
      ]

  serve-keeps :
      (s : Service Db) (user : Bytes) (e : Event) (c : ℕ)
      → IsValid s.sessions
      → ends user e ≡ false
      → get_connection s.sessions user ≡ some c
      → get_connection (serve s e).sessions user ≡ some c
  unfolding serve handle_logout handle_get_history on_disconnect send_response
  serve-keeps s user (registers username password conn current) c v n h =
      ap (λ t. get_connection t user) (handle_register-sessions s username password conn current)
      ∙ h
  serve-keeps s user (logs_in username password conn now) c v n h =
      handle_login-keeps platform s username password user conn now c h
  serve-keeps s user (logs_out username conn) c v n h =
      get_connection-remove_session s.sessions username user v ∙ rw n h
  serve-keeps s user (chats sender content now) c v n h =
      ap (λ t. get_connection t user) (handle_chat-sessions platform s sender content now) ∙ h
  serve-keeps s user (beats username now) c v n h =
      ap (λ t. get_connection t user) (handle_heartbeat-sessions s username now)
      ∙ get_connection-update_heartbeat s.sessions username user now
      ∙ h
  serve-keeps s user (asks_history conn limit) c v n h = h
  serve-keeps s user (disconnects username) c v n h =
      elim (Bool-cases (not (is_empty username) && is_online s.sessions username)) [
        | inl a ↦ rw a (get_connection-remove_session s.sessions username user v ∙ rw n h)
        | inr a ↦ rw a h
      ]

  -- Over any sequence of calls of the service, a user who is online stays online over the same
  -- connection, unless the sequence has a logout or a disconnect of that user: no other user,
  -- and no second login, takes the session over.
  pub serve_all-keeps :
      (s : Service Db) (user : Bytes) (es : List Event) (c : ℕ)
      → IsValid s.sessions
      → Stays user es
      → get_connection s.sessions user ≡ some c
      → get_connection (serve_all s es).sessions user ≡ some c
  unfolding serve_all
  serve_all-keeps s user [] c v stays h = h
  serve_all-keeps s user (e ∷ es) c v stays h =
      serve_all-keeps (serve s e) user es c (serve-IsValid s e v) stays.1
        (serve-keeps s user e c v stays.0 h)
