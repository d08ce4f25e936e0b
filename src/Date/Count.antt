-- ===== src/Date/Count.antt =====
-- `Date::set` counts days: its day number is that of the calendar, past a fixed day.
use commoncpp.Common.{ℕ, ◌+◌, ◌-◌, ◌≤◌, ◌≡◌, arith, ltb, if◌then◌else◌, false}
use commoncpp.Common.Int.{pos}
use commoncpp.Date.{set_date, out_of_range}
use commoncpp.Date.Days.{
  is_leap, days_in_month, month_days, ordinal, IsCalendar, days_through-closed, month_cases,
}
use commoncpp.Date.DayNumber.{julian, march_days, day_number-pos}

-- The day before 0001-01-01.
abbrev pub epoch : ℕ
epoch = 1721425

abbrev leap_day : ℕ → ℕ
leap_day y = if is_leap y then 1 else 0

-- In a year that begins in March the leap day comes last.
month_days-march :
    (y m : ℕ)
    → 1 ≤ m
    → m ≤ 12
    → month_days y (m - 1) + (if ltb m 3 then 336 else 30)
      ≡ march_days m + (if ltb m 3 then 0 else 59 + leap_day y)
month_days-march y =
    month_cases
      (λ m.
        month_days y (m - 1) + (if ltb m 3 then 336 else 30)
        ≡ march_days m + (if ltb m 3 then 0 else 59 + leap_day y))
      (unfold month_days days_in_month in ground arith)
      (unfold month_days days_in_month in ground arith)
      (unfold month_days days_in_month in ground arith)
      (unfold month_days days_in_month in ground arith)
      (unfold month_days days_in_month in ground arith)
      (unfold month_days days_in_month in ground arith)
      (unfold month_days days_in_month in ground arith)
      (unfold month_days days_in_month in ground arith)
      (unfold month_days days_in_month in ground arith)
      (unfold month_days days_in_month in ground arith)
      (unfold month_days days_in_month in ground arith)
      (unfold month_days days_in_month in ground arith)

pub julian-ordinal : (y m d : ℕ) → 1 ≤ y → 1 ≤ m → m ≤ 12 → julian y m d ≡ epoch + ordinal y m d
unfolding ordinal is_leap
julian-ordinal y m d hy lo hi =
    ground (arith, month_days-march y m lo hi, days_through-closed (y - 1))

pub days_in_month_range : (y m : ℕ) → (28 ≤ days_in_month y m) × (days_in_month y m ≤ 31)
unfolding days_in_month
days_in_month_range y m = ground arith

in_range : (y m d : ℕ) → IsCalendar y m d → out_of_range (pos y) (pos m) (pos d) ≡ false
in_range y m d v = let r : d ≤ 31 = omega (arith, days_in_month_range y m, v.day_le) in ground arith

-- `Date::set` of a date of the Gregorian calendar from year 1 on holds a fixed number plus the
-- count of the days from 0001-01-01 up to it, counted year by year and month by month.
pub set_date-ordinal :
    (y m d : ℕ)
    → IsCalendar y m d
    → set_date (pos y) (pos m) (pos d) ≡ record { julian = pos (epoch + ordinal y m d) }
unfolding set_date
set_date-ordinal y m d v = ground (
  arith,
  in_range y m d v,
  day_number-pos y m d v.year_pos v.month_pos v.month_le,
  julian-ordinal y m d v.year_pos v.month_pos v.month_le,
)
