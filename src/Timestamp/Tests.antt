-- ===== src/Timestamp/Tests.antt =====
-- A time of Timestamp.cpp as text, and what is read back from it.
use my_testserver.Prelude.{ℕ, ◌≡◌, refl, codes, length, take, drop, arith}
use my_testserver.Prelude.Int
use my_testserver.Prelude.Int.{pos, atoi, skip_blanks}
use my_testserver.Timestamp.{Tm, to_string}
use my_testserver.Timestamp.Text.{InRange, to_string-fields}

-- In the night of the seventh of March.
abbrev night : ℕ → Tm
night seconds = record {
  tm_year = 125;
  tm_mon = 2;
  tm_mday = 7;
  tm_hour = 0;
  tm_min = 5;
  tm_sec = 59;
}

night_text : to_string night 1000000 ≡ codes "2025/03/07 00:05:59"
unfolding to_string Int.to_string
night_text = refl

night-InRange : InRange (night 1)
night-InRange = record {
  year = omega arith;
  mon = omega arith;
  mday = omega arith;
  hour = omega arith;
  min = omega arith;
  sec = omega arith;
}

to_string-fields_example :
    (length (to_string night 1000000) ≡ 19)
    × (atoi (skip_blanks (take 4 (to_string night 1000000))) ≡ pos 2025)
    × (atoi (take 2 (drop 5 (to_string night 1000000))) ≡ pos 3)
    × (atoi (take 2 (drop 8 (to_string night 1000000))) ≡ pos 7)
    × (atoi (take 2 (drop 11 (to_string night 1000000))) ≡ pos 0)
    × (atoi (take 2 (drop 14 (to_string night 1000000))) ≡ pos 5)
    × (atoi (take 2 (drop 17 (to_string night 1000000))) ≡ pos 59)
to_string-fields_example = to_string-fields night 1000000 night-InRange
