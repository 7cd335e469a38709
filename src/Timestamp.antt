-- ===== src/Timestamp.antt =====
-- mymuduo/Timestamp.{h,cpp}, and the time that TimerQueue.cpp sets the timer descriptor to. A time is
-- in microseconds.
pub mod Text
mod Tests
use my_testserver.Prelude.{
  ℕ, ◌+◌, ◌-◌, ◌*◌, ◌/◌, ◌%◌, ◌<◌, ◌≡◌, ◌++◌, Bool, Bytes, codes, length, replicate, take, ltb,
  if◌then◌else◌, arith,
}
use my_testserver.Prelude.Int
use my_testserver.Prelude.Int.{pos}

-- `now`, from what `gettimeofday` says.
abbrev pub time_now : ℕ → ℕ → ℕ
time_now tv_sec tv_usec = tv_sec * 1000 * 1000 + tv_usec

abbrev pub is_valid : ℕ → Bool
is_valid time = ltb 0 time

-- `delta` is the number of seconds, times 1000 * 1000, as an integer.
abbrev pub add_time : ℕ → ℕ → ℕ
add_time time delta = time + delta

-- What toString uses of a `struct tm`.
pub record Tm : Type 0 where
  pub tm_year : ℕ
  pub tm_mon : ℕ
  pub tm_mday : ℕ
  pub tm_hour : ℕ
  pub tm_min : ℕ
  pub tm_sec : ℕ

-- `%4d` and `%02d` of a number that is not negative.
abbrev pub pad : ℕ → ℕ → ℕ → Bytes
pad fill width n = replicate (width - length (Int.to_string (pos n))) fill ++ Int.to_string (pos n)

-- `localtime` is what `localtime_r` makes of the seconds; `buf` has 128 bytes with the closing zero.
unfoldable pub to_string : (ℕ → Tm) → ℕ → Bytes
to_string localtime time =
    let tm_time : Tm = localtime (time / (1000 * 1000)) in
    take 127 (
      pad b' ' 4 (tm_time.tm_year + 1900)
      ++ (codes "/"
          ++ (pad b'0' 2 (tm_time.tm_mon + 1)
              ++ (codes "/"
                  ++ (pad b'0' 2 tm_time.tm_mday
                      ++ (codes " "
                          ++ (pad b'0' 2 tm_time.tm_hour
                              ++ (codes ":"
                                  ++ (pad b'0' 2 tm_time.tm_min
                                      ++ (codes ":" ++ pad b'0' 2 tm_time.tm_sec))))))))))

pub record Timespec : Type 0 where
  pub tv_sec : ℕ
  pub tv_nsec : ℕ

-- `int64_t` differences below 100, the negative ones included, become 100.
unfoldable pub how_much_time_from_now : ℕ → ℕ → Timespec
how_much_time_from_now when now =
    let microseconds = if ltb (when - now) 100 then 100 else when - now in
    record { tv_sec = microseconds / (1000 * 1000); tv_nsec = microseconds % (1000 * 1000) * 1000 }

-- The descriptor is never set to nothing, which would disarm it, nor to an invalid number of
-- nanoseconds; it is set to the difference, of 100 microseconds at least.
pub how_much_time_from_now_bounds :
    (when now : ℕ)
    → (let ts = how_much_time_from_now when now in
        (ts.tv_nsec < 1000000000)
        × (0 < ts.tv_sec + ts.tv_nsec)
        × (ts.tv_sec * 1000000000 + ts.tv_nsec
            ≡ (if ltb (when - now) 100 then 100 else when - now) * 1000))
unfolding how_much_time_from_now
how_much_time_from_now_bounds when now = (ground arith, ground arith, ground arith)
