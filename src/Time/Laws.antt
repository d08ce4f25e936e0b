-- ===== src/Time/Laws.antt =====
-- The members of Time on the times of a day.
use commoncpp.Common.{ℕ, ◌+◌, ◌-◌, ◌*◌, ◌%◌, ◌≤◌, ◌<◌, ◌≡◌, arith, true, ltb, if◌then◌else◌}
use commoncpp.Common.Int.{pos, ◌+ℤ◌, ◌-ℤ◌, ◌*ℤ◌, ◌/ℤ◌, ◌%ℤ◌, abs}
use commoncpp.Time.{
  Time, c_day, set_time, is_valid, hour, minute, second, update, add_assign, difference,
}

-- The time `s` seconds after midnight.
abbrev pub at_second : ℕ → Time
at_second s = record { seconds = pos s }

pub set_time-pos :
    (h m s : ℕ)
    → h ≤ 23
    → m ≤ 59
    → s ≤ 59
    → set_time (pos h) (pos m) (pos s) ≡ at_second (3600 * h + 60 * m + s)
unfolding set_time ◌+ℤ◌ ◌*ℤ◌
set_time-pos h m s hh hm hs = ground arith

-- The accessors give back the hour to 23, the minute to 59 and the second to 59 that were set, and
-- the time is valid.
pub fields-set_time :
    (h m s : ℕ)
    → h ≤ 23
    → m ≤ 59
    → s ≤ 59
    → let t = set_time (pos h) (pos m) (pos s) in
      (hour t ≡ pos h) × (minute t ≡ pos m) × (second t ≡ pos s) × (is_valid t ≡ true)
unfolding hour minute second is_valid ◌/ℤ◌ ◌%ℤ◌
fields-set_time h m s hh hm hs =
    rw (set_time-pos h m s hh hm hs) (ground arith, ground arith, ground arith, ground arith)

-- `operator+=` with a number of seconds of at least 0 wraps round at midnight.
pub add_assign-mod : (s v : ℕ) → add_assign (at_second s) (pos v) ≡ at_second ((s + v) % c_day)
unfolding add_assign update abs ◌+ℤ◌ ◌%ℤ◌
add_assign-mod s v = ground arith

-- The difference of two times of the day is less than a day, and `operator+=` with it leads from
-- the one to the other.
pub add_assign-difference :
    (s t : ℕ)
    → s < c_day
    → t < c_day
    → (k : ℕ) × (difference (at_second s) (at_second t) ≡ pos k)
      × (k < c_day)
      × (add_assign (at_second t) (pos k) ≡ at_second s)
unfolding difference ◌+ℤ◌ ◌-ℤ◌
add_assign-difference s t hs ht = (
  if ltb s t then s + c_day - t else s - t,
  ground arith,
  ground arith,
  ground (arith, add_assign-mod t (if ltb s t then s + c_day - t else s - t)),
)
