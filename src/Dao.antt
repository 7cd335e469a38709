-- ===== src/Dao.antt =====
-- db/DbConnection.cpp, db/UserDao.cpp and db/MessageDao.cpp. `linked` is the connection's
-- `connected_`, which only its constructor sets.
use my_testserver.Prelude.{
  ℕ, Bool, true, false, Option, none, some, List, [], ◌∷◌, ◌++◌, map, reverse, Bytes, codes, eqb,
  get_or,
}
use my_testserver.Prelude.Int.{ℤ, atoi, to_string}
use my_testserver.Platform.{Platform, Row}

pub record User : Type 0 where
  pub id : ℤ
  pub username : Bytes
  pub password : Bytes

pub record Message : Type 0 where
  pub id : ℤ
  pub user_id : ℤ
  pub username : Bytes
  pub content : Bytes
  pub timestamp : Bytes

-- `row[i] ? row[i] : ""`; a row is as long as its query asks for.
abbrev pub column : Row → ℕ → Bytes
column row i = elim (get_or row i none) [ none ↦ [] | some value ↦ value ]

module _ (platform : Platform) where
  open platform use {Db, mysql_query, store_result, escape}

  -- `DbConnection::execute`.
  unfoldable pub execute : Bool → Db → Bytes → Bool × Db
  execute false db sql = (false, db)
  execute true db sql = mysql_query db sql

  -- `DbConnection::query`.
  unfoldable pub query : Bool → Db → Bytes → Option (List Row) × Db
  query false db sql = (none, db)
  query true db sql =
      let (ok, db') = mysql_query db sql in
      (elim ok [ true ↦ store_result db' sql | false ↦ none ], db')

  unfoldable pub insert_sql : Bytes → Bytes → Bytes
  insert_sql username password =
      codes "INSERT INTO users (username, password) VALUES ('"
      ++ (escape username ++ (codes "', '" ++ (escape password ++ codes "')")))

  unfoldable pub insert_user : Bool → Db → Bytes → Bytes → Bool × Db
  unfolding execute insert_sql
  insert_user false db username password = (false, db)
  insert_user true db username password = execute true db (insert_sql username password)

  unfoldable pub user_of : Row → User
  user_of row = record {
    id = atoi (column row 0);
    username = column row 1;
    password = column row 2;
  }

  unfoldable pub first_user : Option (List Row) → Option User
  unfolding user_of
  first_user none = none
  first_user (some []) = none
  first_user (some (row ∷ rows)) = some (user_of row)

  unfoldable pub select_sql : Bytes → Bytes
  select_sql username =
      codes "SELECT id, username, password FROM users WHERE username = '"
      ++ (escape username ++ codes "'")

  unfoldable pub get_user_by_username : Bool → Db → Bytes → Option User × Db
  unfolding query first_user select_sql
  get_user_by_username false db username = (none, db)
  get_user_by_username true db username =
      let (result, db') = query true db (select_sql username) in (first_user result, db')

  unfoldable pub password_matches : Bytes → Option User → Bool
  password_matches password none = false
  password_matches password (some user) = eqb user.password password

  unfoldable pub verify_user : Bool → Db → Bytes → Bytes → Bool × Db
  unfolding get_user_by_username password_matches
  verify_user linked db username password =
      let (user, db') = get_user_by_username linked db username in
      (password_matches password user, db')

  unfoldable pub user_exists : Bool → Db → Bytes → Bool × Db
  unfolding get_user_by_username
  user_exists linked db username =
      let (user, db') = get_user_by_username linked db username in
      (elim user [ none ↦ false | some _ ↦ true ], db')

  -- `UserDao::heartBeat` and `MessageDao::heartBeat`.
  pub heart_beat : Bool → Db → Bool × Db
  unfolding query
  heart_beat false db = (false, db)
  heart_beat true db =
      let (result, db') = query true db (codes "SELECT 1") in
      (elim result [ none ↦ false | some _ ↦ true ], db')

  save_sql : ℤ → Bytes → Bytes
  save_sql user_id content =
      codes "INSERT INTO messages (user_id, content) VALUES ("
      ++ (to_string user_id ++ (codes ", '" ++ (escape content ++ codes "')")))

  pub save_message : Bool → Db → ℤ → Bytes → Bool × Db
  unfolding execute save_sql
  save_message false db user_id content = (false, db)
  save_message true db user_id content = execute true db (save_sql user_id content)

  message_of : Row → Message
  message_of row = record {
    id = atoi (column row 0);
    user_id = atoi (column row 1);
    username = column row 2;
    content = column row 3;
    timestamp = column row 4;
  }

  recent_sql : ℤ → Bytes
  recent_sql limit =
      codes "SELECT m.id, m.user_id, u.username, m.content, "
      ++ (codes "DATE_FORMAT(m.timestamp, '%Y-%m-%d %H:%i:%s') as formatted_time "
          ++ (codes "FROM messages m JOIN users u ON m.user_id = u.id "
              ++ (codes "ORDER BY m.timestamp DESC LIMIT " ++ to_string limit)))

  -- The rows come newest first, and are returned oldest first.
  oldest_first : Option (List Row) → List Message
  unfolding message_of
  oldest_first none = []
  oldest_first (some rows) = reverse (map message_of rows)

  pub get_recent_messages : Bool → Db → ℤ → List Message × Db
  unfolding query recent_sql oldest_first
  get_recent_messages false db limit = ([], db)
  get_recent_messages true db limit =
      let (result, db') = query true db (recent_sql limit) in (oldest_first result, db')
