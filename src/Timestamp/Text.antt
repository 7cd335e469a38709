-- ===== src/Timestamp/Text.antt =====
-- Timestamp::toString: what can be read back from the text of a time.
use my_testserver.Prelude.{
  ℕ, suc, ◌+◌, ◌-◌, ◌/◌, ◌^◌, ◌<◌, ◌≡◌, ap, ◌∙◌, ◌++◌, ◌∷◌, [], Bytes, codes, length, replicate,
  take, drop, length-append, length-replicate, take-append_self, drop-append_self, drop-drop,
  append-nil, take_of_le, arith, sym, subst,
}
use my_testserver.Prelude.Int
use my_testserver.Prelude.Int.{pos, atoi, skip_blanks, atoi-zeros, atoi-blanks, length-to_string_le}
use my_testserver.Timestamp.{Tm, pad, to_string}

-- A calendar time of localtime_r(3), up to the year 9999.
pub record InRange (tm : Tm) : Type 0 where
  pub year : tm.tm_year + 1900 < 10000
  pub mon : tm.tm_mon < 12
  pub mday : tm.tm_mday < 32
  pub hour : tm.tm_hour < 24
  pub min : tm.tm_min < 60
  pub sec : tm.tm_sec < 61

length-pad : (fill k n : ℕ) → n < 10 ^ suc k → length (pad fill (suc k) n) ≡ suc k
length-pad fill k n h = omega (
  arith,
  length-append (replicate (suc k - length (Int.to_string (pos n))) fill) (Int.to_string (pos n)),
  length-replicate (suc k - length (Int.to_string (pos n))) fill,
  length-to_string_le k n h,
)

module _ (fill : ℕ) (k n : ℕ) (h : n < 10 ^ suc k) where
  -- A padded number in front of other bytes.
  front : (rest : Bytes) → take (suc k) (pad fill (suc k) n ++ rest) ≡ pad fill (suc k) n
  front rest =
      ap (λ w. take w (pad fill (suc k) n ++ rest)) (sym (length-pad fill k n h))
      ∙ take-append_self (pad fill (suc k) n) rest

  behind : (m : ℕ) (rest : Bytes) → drop (suc k + m) (pad fill (suc k) n ++ rest) ≡ drop m rest
  behind m rest =
      sym (drop-drop m (suc k) (pad fill (suc k) n ++ rest))
      ∙ ap (drop m) (
          ap (λ w. drop w (pad fill (suc k) n ++ rest)) (sym (length-pad fill k n h))
          ∙ drop-append_self (pad fill (suc k) n) rest)

-- A character and a number of two digits.
next_field :
    (c n m : ℕ) (rest : Bytes) → n < 100 → drop (3 + m) (c ∷ (pad b'0' 2 n ++ rest)) ≡ drop m rest
next_field c n m rest h =
    ap (λ w. drop w (c ∷ (pad b'0' 2 n ++ rest))) {x = 3 + m} {y = suc (2 + m)} (omega arith)
    ∙ behind b'0' 1 n h m rest

further : (p m : ℕ) (s : Bytes) → drop (p + 3 + m) s ≡ drop (p + (3 + m)) s
further p m s = ap (λ w. drop w s) {x = p + 3 + m} {y = p + (3 + m)} (omega arith)

read_two : (n : ℕ) (rest : Bytes) → n < 100 → atoi (take 2 (pad b'0' 2 n ++ rest)) ≡ pos n
read_two n rest h =
    ap atoi (front b'0' 1 n h rest) ∙ atoi-zeros (2 - length (Int.to_string (pos n))) n

-- The text before it is cut to the buffer, from each field on.
module _ (tm : Tm) where
  abbrev seconds : Bytes
  seconds = codes ":" ++ pad b'0' 2 tm.tm_sec

  abbrev minutes : Bytes
  minutes = codes ":" ++ (pad b'0' 2 tm.tm_min ++ seconds)

  abbrev hours : Bytes
  hours = codes " " ++ (pad b'0' 2 tm.tm_hour ++ minutes)

  abbrev days : Bytes
  days = codes "/" ++ (pad b'0' 2 tm.tm_mday ++ hours)

  abbrev months : Bytes
  months = codes "/" ++ (pad b'0' 2 (tm.tm_mon + 1) ++ days)

  abbrev years : Bytes
  years = pad b' ' 4 (tm.tm_year + 1900) ++ months

  length-two : (n : ℕ) (rest : Bytes) → n < 100 → length (pad b'0' 2 n ++ rest) ≡ 2 + length rest
  length-two n rest h = omega (arith, length-append (pad b'0' 2 n) rest, length-pad b'0' 1 n h)

  length-years : InRange tm → length years ≡ 19
  length-years r = omega (
    arith,
    length-append (pad b' ' 4 (tm.tm_year + 1900)) months,
    length-pad b' ' 3 (tm.tm_year + 1900) r.year,
    length-two (tm.tm_mon + 1) days (omega (arith, r.mon)),
    length-two tm.tm_mday hours (omega (arith, r.mday)),
    length-two tm.tm_hour minutes (omega (arith, r.hour)),
    length-two tm.tm_min seconds (omega (arith, r.min)),
    length-pad b'0' 1 tm.tm_sec (omega (arith, r.sec)),
  )

  -- The fields behind the others.
  from_mon : InRange tm → (m : ℕ) → drop (4 + m) years ≡ drop m months
  from_mon r m = behind b' ' 3 (tm.tm_year + 1900) r.year m months

  from_mday : InRange tm → (m : ℕ) → drop (7 + m) years ≡ drop m days
  from_mday r m =
      further 4 m years
      ∙ from_mon r (3 + m)
      ∙ next_field b'/' (tm.tm_mon + 1) m days (omega (arith, r.mon))

  from_hour : InRange tm → (m : ℕ) → drop (10 + m) years ≡ drop m hours
  from_hour r m =
      further 7 m years
      ∙ from_mday r (3 + m)
      ∙ next_field b'/' tm.tm_mday m hours (omega (arith, r.mday))

  from_min : InRange tm → (m : ℕ) → drop (13 + m) years ≡ drop m minutes
  from_min r m =
      further 10 m years
      ∙ from_hour r (3 + m)
      ∙ next_field b' ' tm.tm_hour m minutes (omega (arith, r.hour))

  from_sec : InRange tm → (m : ℕ) → drop (16 + m) years ≡ drop m seconds
  from_sec r m =
      further 13 m years
      ∙ from_min r (3 + m)
      ∙ next_field b':' tm.tm_min m seconds (omega (arith, r.min))

  year_read : InRange tm → atoi (skip_blanks (take 4 years)) ≡ pos (tm.tm_year + 1900)
  year_read r =
      ap (λ s. atoi (skip_blanks s)) (front b' ' 3 (tm.tm_year + 1900) r.year months)
      ∙ atoi-blanks (4 - length (Int.to_string (pos (tm.tm_year + 1900)))) (tm.tm_year + 1900)

  -- Two characters of the text are read back as the field that stands there.
  field_read :
      (p n : ℕ) (rest : Bytes)
      → n < 100
      → drop p years ≡ pad b'0' 2 n ++ rest
      → atoi (take 2 (drop p years)) ≡ pos n
  field_read p n rest h e = ap (λ s. atoi (take 2 s)) e ∙ read_two n rest h

-- For a calendar time of localtime_r(3) up to the year 9999, the text of toString has 19
-- characters, so that it is never cut to the buffer, and the year, month, day, hour, minute and
-- second are read back from it as numbers.
pub to_string-fields :
    (localtime : ℕ → Tm) (time : ℕ)
    → InRange (localtime (time / 1000000))
    → (let s = to_string localtime time in
        let tm = localtime (time / 1000000) in
        (length s ≡ 19)
        × (atoi (skip_blanks (take 4 s)) ≡ pos (tm.tm_year + 1900))
        × (atoi (take 2 (drop 5 s)) ≡ pos (tm.tm_mon + 1))
        × (atoi (take 2 (drop 8 s)) ≡ pos tm.tm_mday)
        × (atoi (take 2 (drop 11 s)) ≡ pos tm.tm_hour)
        × (atoi (take 2 (drop 14 s)) ≡ pos tm.tm_min)
        × (atoi (take 2 (drop 17 s)) ≡ pos tm.tm_sec))
to_string-fields localtime time r =
    let tm = localtime (time / 1000000) in
    subst
      (λ s.
        (length s ≡ 19)
        × (atoi (skip_blanks (take 4 s)) ≡ pos (tm.tm_year + 1900))
        × (atoi (take 2 (drop 5 s)) ≡ pos (tm.tm_mon + 1))
        × (atoi (take 2 (drop 8 s)) ≡ pos tm.tm_mday)
        × (atoi (take 2 (drop 11 s)) ≡ pos tm.tm_hour)
        × (atoi (take 2 (drop 14 s)) ≡ pos tm.tm_min)
        × (atoi (take 2 (drop 17 s)) ≡ pos tm.tm_sec))
      whole
      (
        length-years tm r,
        year_read tm r,
        field_read tm 5 (tm.tm_mon + 1) (days tm) (omega (arith, r.mon)) (from_mon tm r 1),
        field_read tm 8 tm.tm_mday (hours tm) (omega (arith, r.mday)) (from_mday tm r 1),
        field_read tm 11 tm.tm_hour (minutes tm) (omega (arith, r.hour)) (from_hour tm r 1),
        field_read tm 14 tm.tm_min (seconds tm) (omega (arith, r.min)) (from_min tm r 1),
        field_read tm 17 tm.tm_sec [] (omega (arith, r.sec)) (from_sec tm r 1 ∙ sym (append-nil _)),
      )
  where
    whole : years (localtime (time / 1000000)) ≡ to_string localtime time
    whole =
        unfold to_string in
        sym (
          take_of_le 127 (years (localtime (time / 1000000)))
            (omega (arith, length-years (localtime (time / 1000000)) r)))
