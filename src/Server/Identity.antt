-- ===== src/Server/Identity.antt =====
-- Whose name a connection speaks in: `state.username` of ChatServer.cpp.
use my_testserver.Prelude.Keys.{number_keys}
use my_testserver.Prelude.{
  ℕ, ◌≡◌, refl, ap, ◌∙◌, inl, inr, false, not, ◌&&◌, Option, none, some, Bytes, eqb, eqb_iff,
  is_empty, arith, if◌then◌else◌, Bool-cases, Option-cases, ==_iff,
}
use my_testserver.Prelude.Assoc.{get, erase, get-assign, get-erase, Distinct}
use my_testserver.Platform.{Platform}
use my_testserver.Net.{conn_connected}
use my_testserver.Protocol.{field_username, field_password, field_content}
use my_testserver.Session.{get_connection}
use my_testserver.Session.Laws.{IsValid, get_connection-remove_session, get_connection-offline}
use my_testserver.Service.{Service, handle_chat, on_disconnect}
use my_testserver.Server.{
  Server, ConnectionState, done, ◌>>=◌, state_of, set_username, leave, on_connection, on_login,
  on_chat, get_current_username, found_name,
}

module _ (platform : Platform) where
  open platform use {Db, Json, value_text}

  state_of-set_username :
      (s : Server Db) (conn : ℕ) (username : Bytes)
      → (state_of (set_username s conn username) conn).username ≡ username
  state_of-set_username s conn username = ground (
    arith,
    ==_iff conn conn,
    get-assign s.states conn conn (record (state_of s conn) { username = username }),
  )

  chat_as :
      (s : Server Db) (conn : ℕ) (k : Json) (content : Bytes) (later : ℕ)
      → value_text k field_content ≡ some content
      → on_chat platform s conn k later
        ≡ done (record s {
          service = handle_chat platform s.service (state_of s conn).username content later;
        })
  unfolding on_chat
  chat_as s conn k content later h = rw h refl

  -- After a login message with text fields, whatever its password and whatever the answer, a
  -- chat message of the same connection is handled as sent by the user whom the login named.
  pub login_then_chat :
      (s : Server Db) (conn : ℕ) (j k : Json) (victim content : Bytes) (now later : ℕ)
      → value_text j field_username ≡ some victim
      → value_text k field_content ≡ some content
      → (on_login platform s conn j now >>= λ s₁. on_chat platform s₁ conn k later) ≡ (
          on_login platform s conn j now >>= λ s₁.
          done (record s₁ { service = handle_chat platform s₁.service victim content later }))
  unfolding on_login
  login_then_chat s conn j k victim content now later h g =
      rw h (elim (Option-cases (value_text j field_password)) [
        | inl e ↦ rw e refl
        | inr (password, e) ↦
            rw e (chat_as _ conn k content later g ∙ rw (state_of-set_username s conn victim) refl)
      ])

  on_disconnect-sessions :
      (s : Service Db) (username other : Bytes)
      → IsValid s.sessions
      → get_connection (on_disconnect platform s username).sessions other ≡ (
          if not (is_empty username) && eqb username other
          then none
          else get_connection s.sessions other)
  unfolding on_disconnect
  on_disconnect-sessions s username other v = ground (
    arith,
    get_connection-remove_session s.sessions username other v,
    get_connection-offline s.sessions username,
    eqb_iff username other,
  )

  leave-sessions :
      (s : Server Db) (state : Option ConnectionState) (other : Bytes)
      → IsValid s.service.sessions
      → get_connection (leave platform s state).service.sessions other ≡ (
          if not (is_empty (found_name state)) && eqb (found_name state) other
          then none
          else get_connection s.service.sessions other)
  unfolding leave
  leave-sessions s none other v = refl
  leave-sessions s (some state) other v = elim (Bool-cases (is_empty state.username)) [
    | inl e ↦ rw e refl
    | inr e ↦ rw e (on_disconnect-sessions s.service state.username other v ∙ rw e refl)
  ]

  pub leave-states :
      (s : Server Db) (state : Option ConnectionState) → (leave platform s state).states ≡ s.states
  unfolding leave
  leave-states s none = refl
  leave-states s (some state) = ground arith

  -- When a connection goes down, onConnection removes its state, and removes the session of the
  -- user whose name the connection has, and of no other user.
  pub on_connection_down :
      (s : Server Db) (conn : ℕ) (other : Bytes)
      → conn_connected s.service.net conn ≡ false
      → IsValid s.service.sessions
      → Distinct s.states
      → (get (on_connection platform s conn).states conn ≡ none)
        × (get_connection (on_connection platform s conn).service.sessions other ≡ (
            if not (is_empty (get_current_username s conn))
              && eqb (get_current_username s conn) other
            then none
            else get_connection s.service.sessions other))
  unfolding on_connection get_current_username
  on_connection_down s conn other down v d = (
    rw down (
        ap (λ states. get (erase states conn) conn) (leave-states s (get s.states conn))
        ∙ ground (arith, ==_iff conn conn, get-erase s.states conn conn d)),
    rw down (leave-sessions s (get s.states conn) other v),
  )
