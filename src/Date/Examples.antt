-- ===== src/Date/Examples.antt =====
-- Tests of Date, and the theorems at 2024-02-29 and the days around it.
use commoncpp.Common.{◌+◌, ◌≡◌, ◌↔◌, refl, some, ◌∷◌, [], inl, arith, true}
use commoncpp.Common.Int.{pos, ◌+ℤ◌, ◌-ℤ◌, ◌*ℤ◌, ◌/ℤ◌, ◌%ℤ◌}
use commoncpp.Numbers.{
  Buffer, number, get, znumber_set, zset_digits, scale, put_digits, read_digits,
}
use commoncpp.Date.{
  Tm, set_date, day_number, set_text, set_layout, layout_of, strlen, put, put_civil, civil, int_of,
  year, month, day, get_number, atol, increment, dow, date_lt, local_buffer, invalid,
}
use commoncpp.Date.Days.{is_leap, days_in_month, days_through, month_days, ordinal}
use commoncpp.Date.Count.{set_date-ordinal, epoch}
use commoncpp.Date.Inverse.{civil-ordinal}
use commoncpp.Date.RoundTrip.{date_text-put}
use commoncpp.Date.Order.{Ymd, Real, set_ymd, next_day, Before, increment-set_ymd, date_lt-Before}

dates : Unit {0}
unfolding number get znumber_set zset_digits scale put_digits read_digits set_date day_number
    set_text set_layout layout_of strlen put put_civil civil int_of year month day get_number atol
    increment dow ◌+ℤ◌ ◌-ℤ◌ ◌*ℤ◌ ◌/ℤ◌ ◌%ℤ◌
dates = tt

calendar : Unit {0}
unfolding is_leap days_in_month days_through month_days ordinal next_day
calendar = tt

abbrev now : Tm
now = record {
  tm_year = pos 124;
  tm_mon = pos 0;
  tm_mday = pos 1;
  tm_hour = pos 0;
  tm_min = pos 0;
  tm_sec = pos 0;
}

-- "02/29/24" with the month in front, as the code reads it: year 2002.
abbrev slashes : Buffer
slashes = b'0' ∷ b'2' ∷ b'/' ∷ b'1' ∷ b'2' ∷ b'/' ∷ b'2' ∷ b'4' ∷ 0 ∷ []

runs :
    (set_date (pos 2000) (pos 1) (pos 1) ≡ record { julian = pos 2451545 })
    × (set_date (pos 2000) (pos 13) (pos 1) ≡ invalid)
    × (set_text now slashes 0 ≡ set_date (pos 2002) (pos 12) (pos 24))
    × (dow (set_date (pos 2000) (pos 1) (pos 1)) ≡ pos 6)
    × (put (set_date (pos 2000) (pos 2) (pos 30)) 0 local_buffer
        ≡ some (b'2' ∷ b'0' ∷ b'0' ∷ b'0' ∷ b'-' ∷ b'0' ∷ b'3' ∷ b'-' ∷ b'0' ∷ b'1' ∷ 0 ∷ []))
unfolding dates
runs = (refl, refl, refl, refl, refl)

abbrev leap_day : Ymd
leap_day = record { y = 2024; m = 2; d = 29 }

abbrev march_first : Ymd
march_first = record { y = 2024; m = 3; d = 1 }

leap_day-Real : Real leap_day
unfolding calendar
leap_day-Real = omega arith

march_first-Real : Real march_first
unfolding calendar
march_first-Real = omega arith

set_date-ordinal_example :
    set_date (pos 2024) (pos 2) (pos 29) ≡ record { julian = pos (epoch + ordinal 2024 2 29) }
set_date-ordinal_example = set_date-ordinal 2024 2 29 leap_day-Real

civil-ordinal_example :
    civil (pos (epoch + ordinal 2024 2 29))
    ≡ some (record { year = pos 2024; month = pos 2; day = pos 29 })
civil-ordinal_example = civil-ordinal 2024 2 29 leap_day-Real (omega arith)

date_text-put_example :
    (c : Buffer) × (put (set_ymd leap_day) 0 local_buffer ≡ some c)
    × (set_text now c 0 ≡ set_ymd leap_day)
date_text-put_example =
    date_text-put 2024 2 29 leap_day-Real (omega arith) now 0 local_buffer (inl refl) (omega arith)

increment-set_ymd_example : increment (set_ymd leap_day) ≡ set_ymd (next_day leap_day)
increment-set_ymd_example = increment-set_ymd leap_day leap_day-Real

date_lt-Before_example :
    (date_lt (set_ymd leap_day) (set_ymd march_first) ≡ true) ↔ Before leap_day march_first
date_lt-Before_example = date_lt-Before leap_day march_first leap_day-Real march_first-Real
