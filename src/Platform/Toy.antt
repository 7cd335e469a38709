-- ===== src/Platform/Toy.antt =====
-- A platform to run the server on in the tests: one user, "ann" with password "pw", and JSON texts
-- that stand for the value of each of their fields, but for "{}", which has none.
use my_testserver.Prelude.{
  ℕ, ◌+◌, ◌||◌, Bool, starts_with, true, none, some, [], ◌∷◌, Bytes, codes, eqb, if◌then◌else◌,
}
use my_testserver.Platform.{Platform}

abbrev pub ann : Bytes
ann = codes "ann"

abbrev pub pw : Bytes
pw = codes "pw"

abbrev pub toy : Platform
toy = record {
  Db = ℕ;
  mysql_query = λ db sql. (true, db + 1);
  store_result = λ db sql. some ((some (codes "1") ∷ some ann ∷ some pw ∷ []) ∷ []);
  escape = λ s. s;
  Json = Bytes;
  parse = λ s. some s;
  get_text = λ j key. if eqb j (codes "{}") then none else some j;
  value_text = λ j key. some j;
  value_int = λ j key default. some default;
  dump = λ fields. codes "{}";
  sha1 = λ s. s;
  base64 = λ s. s;
  read_file = λ path. some path;
}

-- The same with a table of users that "ann" is not in before the first INSERT.
abbrev pub memory : Platform
memory = record toy {
  Db = Bool;
  mysql_query = λ db sql. (true, db || starts_with (codes "INSERT") sql);
  store_result =
      λ db sql. if db then some ((some (codes "1") ∷ some ann ∷ some pw ∷ []) ∷ []) else some [];
}
