-- ===== src/Service/Register.antt =====
-- handleRegister and handleLogin of ChatService.cpp, one after the other.
use my_testserver.Prelude.{
  ℕ, ◌≡◌, refl, ap, ap₂, ◌∙◌, Bool, true, false, ◌||◌, some, [], ◌∷◌, Bytes, eqb_refl, is_empty,
  arith,
}
use my_testserver.Platform.{Platform}
use my_testserver.Dao.{
  execute, query, insert_sql, insert_user, select_sql, first_user, user_of, get_user_by_username,
  password_matches, verify_user, user_exists,
}
use my_testserver.Session.{add_session, is_online}
use my_testserver.Service.{Service, send_response, handle_register, handle_login}
use my_testserver.Service.Login.{handle_login-sessions}

module _ (platform : Platform) where
  open platform use {Db, mysql_query, store_result}

  -- The database as a registration leaves it.
  abbrev pub inserted : Db → Bytes → Bytes → Db
  inserted db username password = (mysql_query db (insert_sql platform username password)).1

  -- What MySQL promises of an INSERT that it accepted: a SELECT of the name finds the row.
  pub record Stores (db : Db) (username password : Bytes) : Type 0 where
    pub accepted : (mysql_query db (insert_sql platform username password)).0 ≡ true
    pub selected :
        (mysql_query (inserted db username password) (select_sql platform username)).0 ≡ true
    pub id : Bytes
    pub found :
        store_result
          (mysql_query (inserted db username password) (select_sql platform username)).1
          (select_sql platform username)
        ≡ some ((some id ∷ some username ∷ some password ∷ []) ∷ [])

  -- The database after the test whether the name is taken.
  abbrev pub looked_up : Service Db → Bytes → Db
  looked_up s username = (user_exists platform s.users_linked s.db username).1

  verify_user_stored :
      (db : Db) (username password : Bytes)
      → Stores db username password
      → (verify_user platform true (inserted db username password) username password).0 ≡ true
  unfolding verify_user get_user_by_username query first_user user_of password_matches
  verify_user_stored db username password m = rw (m.selected, m.found) (eqb_refl password)

  insert_linked :
      (linked : Bool) (db : Db) (username password : Bytes)
      → linked ≡ true
      → insert_user platform linked db username password
        ≡ mysql_query db (insert_sql platform username password)
  unfolding insert_user execute
  insert_linked linked db username password h = rw h refl

  registered :
      (s : Service Db) (username password : Bytes) (conn : ℕ) (current : Bytes)
      → (is_empty username || is_empty password) ≡ false
      → s.users_linked ≡ true
      → (user_exists platform s.users_linked s.db username).0 ≡ false
      → Stores (looked_up s username) username password
      → let d = handle_register platform s username password conn current in
        (d.db ≡ inserted (looked_up s username) username password)
        × (d.users_linked ≡ true)
        × (d.sessions ≡ s.sessions)
  unfolding handle_register send_response
  registered s username password conn current full linked unknown m = ground (
    arith,
    m.accepted,
    insert_linked s.users_linked (looked_up s username) username password linked,
  )

  -- After a registration of a new name with a password, both not empty, over a linked database
  -- that stores what it accepts, a login with the same name and password by a user not online is
  -- accepted, and adds the session.
  pub register_then_login :
      (s : Service Db) (username password : Bytes) (conn : ℕ) (current : Bytes) (now : ℕ)
      → (is_empty username || is_empty password) ≡ false
      → s.users_linked ≡ true
      → (user_exists platform s.users_linked s.db username).0 ≡ false
      → is_online s.sessions username ≡ false
      → Stores (looked_up s username) username password
      → (handle_login platform
          (handle_register platform s username password conn current)
          username
          password
          conn
          now).sessions
        ≡ add_session s.sessions username conn now
  register_then_login s username password conn current now full linked unknown offline m =
      let (db, still_linked, same) =
        registered s username password conn current full linked unknown m in
      let stored = verify_user_stored (looked_up s username) username password m in
      let d = handle_register platform s username password conn current in
      let confirmed : (verify_user platform d.users_linked d.db username password).0 ≡ true =
        ap₂ (λ l b. (verify_user platform l b username password).0) still_linked db ∙ stored in
      let free : is_online d.sessions username ≡ false =
        ap (λ t. is_online t username) same ∙ offline in
      handle_login-sessions platform d username password conn now
      ∙ rw (full, confirmed, free) (ap (λ t. add_session t username conn now) same)
