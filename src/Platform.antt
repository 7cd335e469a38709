-- ===== src/Platform.antt =====
-- What the chat server calls and this repository does not implement: MySQL's client library, the
-- JSON library, OpenSSL, and the file system. They are parameters of the model.
pub mod Toy
use my_testserver.Prelude.{ℕ, Bool, List, Option, Bytes}
use my_testserver.Prelude.Int.{ℤ}

-- A value that the server puts into a JSON object.
pub data Field : Type 0 where
  text : Bytes → Field
  flag : Bool → Field
  number : ℕ → Field
  names : List Bytes → Field
  rows : List (List (Bytes × Bytes)) → Field

-- A row of a result; `none` is a column that is NULL.
abbrev pub Row : Type 0
Row = List (Option Bytes)

pub record Platform : Type 1 where
  -- The database behind both connections.
  pub Db : Type 0
  -- `mysql_query`: whether it returned 0, and the database afterwards.
  pub mysql_query : Db → Bytes → Bool × Db
  -- `mysql_store_result` after a query that returned 0; `none` is a null pointer.
  pub store_result : Db → Bytes → Option (List Row)
  -- `mysql_real_escape_string`.
  pub escape : Bytes → Bytes
  -- A parsed JSON value, and `json::parse`; `none` is a `json::parse_error`.
  pub Json : Type 0
  pub parse : Bytes → Option Json
  -- `std::string s = j[key]`; `none` is an exception other than `parse_error`.
  pub get_text : Json → Bytes → Option Bytes
  -- `j.value(key, "")` and `j.value(key, 50)`, in the same way.
  pub value_text : Json → Bytes → Option Bytes
  pub value_int : Json → Bytes → ℤ → Option ℤ
  -- `dump()` of an object that was built by these assignments.
  pub dump : List (Bytes × Field) → Bytes
  -- `SHA1`, and Base64 as OpenSSL's filter writes it.
  pub sha1 : Bytes → Bytes
  pub base64 : Bytes → Bytes
  -- The content of a file; `none` if it cannot be opened.
  pub read_file : Bytes → Option Bytes
