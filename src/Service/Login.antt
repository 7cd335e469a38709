-- ===== src/Service/Login.antt =====
-- handleLogin of ChatService.cpp: who gets a session.
use my_testserver.Prelude.Keys.{bytes_keys}
use my_testserver.Prelude.{
  ℕ, ◌≡◌, ap, ◌∙◌, Bool, not, ◌&&◌, ◌||◌, some, Bytes, eqb_iff, is_empty, arith, if◌then◌else◌,
}
use my_testserver.Platform.{Platform}
use my_testserver.Dao.{verify_user}
use my_testserver.Session.{add_session, get_connection, is_online}
use my_testserver.Session.Laws.{get_connection-add_session, get_connection-offline}
use my_testserver.Service.{Service, send_response, log_in, handle_login}

module _ (platform : Platform) where
  open platform use {Db}

  -- When a login is accepted.
  abbrev pub accepts : Service Db → Bytes → Bytes → Bool
  accepts s username password =
      not (is_empty username || is_empty password)
      && ((verify_user platform s.users_linked s.db username password).0
          && not (is_online s.sessions username))

  -- The session table behind handleLogin.
  pub handle_login-sessions :
      (s : Service Db) (username password : Bytes) (conn now : ℕ)
      → (handle_login platform s username password conn now).sessions ≡ (
          if accepts s username password
          then add_session s.sessions username conn now
          else s.sessions)
  unfolding handle_login log_in send_response
  handle_login-sessions s username password conn now = ground arith

  pub handle_login-keeps :
      (s : Service Db) (username password other : Bytes) (conn now c : ℕ)
      → get_connection s.sessions other ≡ some c
      → get_connection (handle_login platform s username password conn now).sessions other ≡ some c
  handle_login-keeps s username password other conn now c h =
      ap (λ sessions. get_connection sessions other)
        (handle_login-sessions s username password conn now)
      ∙ ground (
        arith,
        h,
        get_connection-add_session s.sessions username other conn now,
        get_connection-offline s.sessions username,
        eqb_iff username other,
      )
