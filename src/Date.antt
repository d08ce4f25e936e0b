-- ===== src/Date.antt =====
-- The class Date of corelib/datetime.cpp. A date is its Julian day number.
-- The doubles of `Date::put` hold whole numbers, and each quotient is cut to an `int` at once: where
-- an int holds it, that is integer division, and where none does, the model gives `none`.
-- What the C library says of the current time is the argument `now`.
pub mod Days
pub mod DayNumber
pub mod Count
pub mod Steps
pub mod Inverse
pub mod Text
pub mod RoundTrip
pub mod Order
mod Examples
use commoncpp.Common.{
  ℕ, zero, suc, ◌+◌, ◌-◌, ◌*◌, ◌^◌, Bool, true, false, not, ◌&&◌, ◌||◌, List, [], ◌∷◌, Option, none,
  some, ltb, leb, ◌==◌, if◌then◌else◌, ◌>>=◌, set, get_or, length, replicate,
}
use commoncpp.Common.Int.{ℤ, pos, negsuc, ◌+ℤ◌, ◌-ℤ◌, ◌*ℤ◌, ◌/ℤ◌, ◌%ℤ◌, ltb_ℤ, eqb_ℤ}
use commoncpp.Numbers.{Buffer, char_at, is_digit, Number, number, get, read_digits, znumber_set}

-- The fields of `struct tm` that the code reads and writes.
pub record Tm : Type 0 where
  pub tm_year : ℤ
  pub tm_mon : ℤ
  pub tm_mday : ℤ
  pub tm_hour : ℤ
  pub tm_min : ℤ
  pub tm_sec : ℤ

pub record Date : Type 0 where
  pub julian : ℤ

abbrev pub invalid : Date
invalid = record { julian = pos 0x7fffffff }

-- `Date::set(long nyear, long nmonth, long nday)`: the guard, and the day number.
unfoldable pub day_number : ℤ → ℤ → ℤ → ℤ
day_number y m d =
    let a = (m -ℤ pos 14) /ℤ 12 in
    d
    -ℤ pos 32075
    +ℤ 1461 *ℤ (y +ℤ pos 4800 +ℤ a) /ℤ 4
    +ℤ 367 *ℤ (m -ℤ pos 2 -ℤ 12 *ℤ a) /ℤ 12
    -ℤ 3 *ℤ ((y +ℤ pos 4900 +ℤ a) /ℤ 100) /ℤ 4

abbrev pub out_of_range : ℤ → ℤ → ℤ → Bool
out_of_range y m d =
    ltb_ℤ m (pos 1) || ltb_ℤ (pos 12) m || ltb_ℤ d (pos 1) || ltb_ℤ (pos 31) d || eqb_ℤ y (pos 0)

unfoldable pub set_date : ℤ → ℤ → ℤ → Date
set_date y m d =
    let y' = if ltb_ℤ y (pos 0) then y -ℤ pos 1 else y in
    if out_of_range y m d then invalid else record { julian = day_number y' m d }

unfoldable pub set_tm : Tm → Date
set_tm t = set_date (t.tm_year +ℤ pos 1900) (t.tm_mon +ℤ pos 1) t.tm_mday

-- The length of the text at the head of a buffer, up to its terminator.
unfoldable pub strlen : Buffer → ℕ
strlen [] = 0
strlen (c ∷ b) = if c == 0 then 0 else suc (strlen b)

-- `ZNumber(str + at, width)()`.
abbrev pub number_at : Buffer → ℕ → ℕ → ℤ
number_at b at width = get (number at width) b

-- What the text's form says: the year, and where the month and the day stand.
pub record Layout : Type 0 where
  pub nyear : ℤ
  pub mstr : ℕ
  pub dstr : ℕ

abbrev layout : ℤ → ℕ → ℕ → Option Layout
layout y m d = some (record { nyear = y; mstr = m; dstr = d })

abbrev this_year : Tm → ℤ
this_year now = now.tm_year +ℤ pos 1900

abbrev in_century : Tm → ℤ → ℤ
in_century now y = 100 *ℤ (this_year now /ℤ 100) +ℤ y

unfoldable pub layout_of : Tm → Buffer → ℕ → Option Layout
layout_of now str size =
    if size == 4
    then layout (this_year now) 0 2
    else if size == 5
    then layout (this_year now) 0 3
    else if size == 6
    then layout (in_century now (number_at str 0 2)) 2 4
    else if size == 8 && is_digit (char_at str 2) && is_digit (char_at str 5)
    then layout (number_at str 0 4) 4 6
    else if size == 8
    then layout (in_century now (number_at str 0 2)) 3 6
    else if size == 10
    then layout (number_at str 0 4) 5 8
    else none

-- `Date::set(const char *str, size_t size)`: its last lines, and the whole.
unfoldable pub set_layout : Buffer → Option Layout → Date
set_layout str none = invalid
set_layout str (some f) = set_date f.nyear (number_at str f.mstr 2) (number_at str f.dstr 2)

unfoldable pub set_text : Tm → Buffer → ℕ → Date
unfolding set_layout
set_text now str size = set_layout str (layout_of now str (if size == 0 then strlen str else size))

unfoldable pub is_valid : Date → Bool
is_valid t = not (eqb_ℤ t.julian (pos 0x7fffffff))

pub record Civil : Type 0 where
  pub year : ℤ
  pub month : ℤ
  pub day : ℤ

-- `int(...)` of a double: `none` is a number that no int holds, for which C says nothing.
unfoldable pub int_of : ℤ → Option ℤ
int_of (pos n) = if ltb n (2 ^ 31) then some (pos n) else none
int_of (negsuc n) = if ltb n (2 ^ 31) then some (negsuc n) else none

-- The computation of `Date::put`.
unfoldable pub civil : ℤ → Option Civil
unfolding int_of
civil julian = do
  let l = julian +ℤ pos 68569
  n ← int_of (4 *ℤ l /ℤ 146097)
  c ← int_of ((146097 *ℤ n +ℤ pos 3) /ℤ 4)
  let l1 = l -ℤ c
  i ← int_of (4000 *ℤ (l1 +ℤ pos 1) /ℤ 1461001)
  q ← int_of (1461 *ℤ i /ℤ 4)
  let l2 = l1 -ℤ q +ℤ pos 31
  j ← int_of (80 *ℤ l2 /ℤ 2447)
  d ← int_of (2447 *ℤ j /ℤ 80)
  l3 ← int_of (j /ℤ 11)
  year ← int_of (100 *ℤ (n -ℤ pos 49) +ℤ i +ℤ l3)
  month ← int_of (j +ℤ pos 2 -ℤ 12 *ℤ l3)
  day ← int_of (l2 -ℤ d)
  some (record { year = year; month = month; day = day })

-- `Date::put` into a buffer, from place `at`.
unfoldable pub put_civil : Civil → ℕ → Buffer → Option Buffer
put_civil c at buffer = do
  let b = set (set buffer (at + 4) b'-') (at + 7) b'-'
  b1 ← znumber_set (number at 4) c.year b
  b2 ← znumber_set (number (at + 5) 2) c.month b1
  b3 ← znumber_set (number (at + 8) 2) c.day b2
  some (set b3 (at + 10) 0)

unfoldable pub put : Date → ℕ → Buffer → Option Buffer
put t at buffer = do c ← civil t.julian; put_civil c at buffer

-- `char buf[11]`; `put` writes each of its chars before one is read.
abbrev pub local_buffer : Buffer
local_buffer = replicate 11 0

abbrev field_of : ℕ → ℕ → Date → Option ℤ
field_of at width t = do buf ← put t 0 local_buffer; some (number_at buf at width)

unfoldable pub year : Date → Option ℤ
year = field_of 0 4

unfoldable pub month : Date → Option ℤ
month = field_of 5 2

unfoldable pub day : Date → Option ℤ
day = field_of 8 2

unfoldable pub dow : Date → ℤ
dow t = (t.julian +ℤ pos 1) %ℤ 7

-- The C library's `atol`, of a text that begins with a digit: the rest is never longer than the
-- buffer, so its length bounds the loop.
unfoldable pub atol : Buffer → ℕ → ℤ
atol b at = pos (read_digits (length b) b at 0)

unfoldable pub get_number : Date → Option ℤ
get_number t = do
  buf ← put t 0 local_buffer
  some (10000 *ℤ atol buf 0 +ℤ 100 *ℤ atol buf 5 +ℤ atol buf 8)

-- What `timeref` hands to mktime.
unfoldable pub time_fields : Date → Option Tm
time_fields t = do
  buf ← put t 0 local_buffer
  some (record {
    tm_year = number_at buf 0 4 -ℤ pos 1900;
    tm_mon = number_at buf 5 2 -ℤ pos 1;
    tm_mday = number_at buf 8 2;
    tm_hour = pos 0;
    tm_min = pos 0;
    tm_sec = pos 0;
  })

unfoldable pub add_assign : Date → ℤ → Date
add_assign t v = record { julian = t.julian +ℤ v }

unfoldable pub sub_assign : Date → ℤ → Date
sub_assign t v = record { julian = t.julian -ℤ v }

unfoldable pub increment : Date → Date
increment t = record { julian = t.julian +ℤ pos 1 }

unfoldable pub decrement : Date → Date
decrement t = record { julian = t.julian -ℤ pos 1 }

unfoldable pub add : Date → ℤ → Date
unfolding add_assign
add t v = add_assign t v

unfoldable pub sub : Date → ℤ → Date
unfolding sub_assign
sub t v = sub_assign t v

unfoldable pub date_eq : Date → Date → Bool
date_eq a b = eqb_ℤ a.julian b.julian

unfoldable pub date_ne : Date → Date → Bool
date_ne a b = not (eqb_ℤ a.julian b.julian)

unfoldable pub date_lt : Date → Date → Bool
date_lt a b = ltb_ℤ a.julian b.julian

unfoldable pub date_le : Date → Date → Bool
date_le a b = not (ltb_ℤ b.julian a.julian)

unfoldable pub date_gt : Date → Date → Bool
date_gt a b = ltb_ℤ b.julian a.julian

unfoldable pub date_ge : Date → Date → Bool
date_ge a b = not (ltb_ℤ a.julian b.julian)
