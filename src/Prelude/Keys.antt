-- ===== src/Prelude/Keys.antt =====
-- The keys of the program's maps: names and numbers.
use my_testserver.Prelude.{ℕ, Bytes, eqb, eqb_iff, ◌==◌, ==_iff}
use my_testserver.Prelude.Assoc.{Keys}

instance abbrev pub bytes_keys : Keys Bytes
bytes_keys = record { same = eqb; same_iff = eqb_iff }

instance abbrev pub number_keys : Keys ℕ
number_keys = record { same = λ a b. a == b; same_iff = ==_iff }
