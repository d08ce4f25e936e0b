-- ===== src/DateTime/Examples.antt =====
-- Tests of DateTime, and the theorems at moments of 2024-02-29.
use commoncpp.Common.{◌≡◌, refl, some, inr, arith, replicate}
use commoncpp.Common.Int.{pos, ◌+ℤ◌, ◌-ℤ◌, ◌/ℤ◌, ◌%ℤ◌, abs}
use commoncpp.Numbers.{Buffer}
use commoncpp.Date.{Tm}
use commoncpp.Date.Days.{IsCalendar, is_leap, days_in_month}
use commoncpp.Time.{c_day}
use commoncpp.Time
use commoncpp.DateTime.{DateTime, from_text, put, update, add_assign, sub_assign, difference}
use commoncpp.DateTime.Laws.{at_moment, difference-add_assign}
use commoncpp.DateTime.Text.{moment, datetime_text-put}

-- A second forward past midnight and a second back do not return to the same moment.
not_undone : sub_assign (add_assign (at_moment 5 86399) (pos 1)) (pos 1) ≡ at_moment 6 1
unfolding sub_assign add_assign update Time.update abs ◌+ℤ◌ ◌-ℤ◌ ◌/ℤ◌ ◌%ℤ◌
not_undone = refl

abbrev now : Tm
now = record {
  tm_year = pos 124;
  tm_mon = pos 0;
  tm_mday = pos 1;
  tm_hour = pos 0;
  tm_min = pos 0;
  tm_sec = pos 0;
}

leap_day-IsCalendar : IsCalendar 2024 2 29
unfolding is_leap days_in_month
leap_day-IsCalendar = omega arith

-- 2024-02-29 13:47:05
abbrev meeting : DateTime
meeting = moment 2024 2 29 49625 leap_day-IsCalendar (omega arith) (omega arith)

datetime_text-put_example :
    (c : Buffer) × (put meeting (replicate 20 0) ≡ some c) × (from_text now c 19 ≡ meeting)
datetime_text-put_example =
    datetime_text-put 2024 2 29 49625 leap_day-IsCalendar (omega arith) (omega arith) now 19
      (replicate 20 0) (inr refl) (omega arith)

difference-add_assign_example :
    let t = add_assign (add_assign (at_moment 5 86399) (pos 86401)) (pos 7) in
    (t ≡ add_assign (at_moment 5 86399) (pos 86408))
    × (difference t (at_moment 5 86399) ≡ pos 86408)
difference-add_assign_example = difference-add_assign 5 86399 86401 7
