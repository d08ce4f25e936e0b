-- ===== src/Time.antt =====
-- The class Time of corelib/datetime.cpp: the seconds since midnight, -1 where it is not valid.
pub mod Laws
pub mod Text
mod Examples
use commoncpp.Common.{
  ℕ, ◌+◌, Bool, true, false, not, ◌||◌, Option, some, ltb, ◌==◌, if◌then◌else◌, ◌>>=◌, set, drop,
  List,
}
use commoncpp.Common.Int.{ℤ, pos, negsuc, ◌+ℤ◌, ◌-ℤ◌, ◌*ℤ◌, ◌/ℤ◌, ◌%ℤ◌, abs, ltb_ℤ, eqb_ℤ}
use commoncpp.Numbers.{Buffer, number, get, znumber_set}
use commoncpp.Date.{Tm, strlen, number_at}

abbrev pub c_day : ℕ
c_day = 86400

pub record Time : Type 0 where
  pub seconds : ℤ

abbrev pub unset : Time
unset = record { seconds = negsuc 0 }

-- `Time::set(int nhour, int nminute, int nsecond)`.
unfoldable pub set_time : ℤ → ℤ → ℤ → Time
set_time nhour nminute nsecond =
    if ltb_ℤ (pos 59) nminute || ltb_ℤ (pos 59) nsecond || ltb_ℤ (pos 23) nhour
    then unset
    else record { seconds = 3600 *ℤ nhour +ℤ 60 *ℤ nminute +ℤ nsecond }

unfoldable pub set_tm : Tm → Time
set_tm t = set_time t.tm_hour t.tm_min t.tm_sec

unfoldable pub is_valid : Time → Bool
is_valid t = not (eqb_ℤ t.seconds (negsuc 0))

abbrev guarded : Time → ℤ → ℤ
guarded t v = if eqb_ℤ t.seconds (negsuc 0) then negsuc 0 else v

unfoldable pub hour : Time → ℤ
hour t = guarded t (t.seconds /ℤ 3600)

unfoldable pub minute : Time → ℤ
minute t = guarded t ((t.seconds /ℤ 60) %ℤ 60)

unfoldable pub second : Time → ℤ
second t = guarded t (t.seconds %ℤ 60)

-- `Time::update`, on the seconds.
unfoldable pub update : ℤ → ℤ
update s = abs (s %ℤ c_day)

-- `Time::set(const char *str, size_t size)`, of the text at place `at`.
unfoldable pub set_text : Buffer → ℕ → ℕ → Time
set_text str at size =
    let n = if size == 0 then strlen (drop at str) else size in
    let from = λ (sec : ℤ). set_time (number_at str at 2) (number_at str (at + 3) 2) sec in
    if n == 5 then from (pos 0) else if n == 8 then from (number_at str (at + 6) 2) else unset

unfoldable pub get_seconds : Time → ℤ
get_seconds t = t.seconds

unfoldable pub add_assign : Time → ℤ → Time
add_assign t v = record { seconds = update (t.seconds +ℤ v) }

unfoldable pub sub_assign : Time → ℤ → Time
sub_assign t v = record { seconds = update (t.seconds -ℤ v) }

unfoldable pub increment : Time → Time
increment t = record { seconds = update (t.seconds +ℤ pos 1) }

unfoldable pub decrement : Time → Time
decrement t = record { seconds = update (t.seconds -ℤ pos 1) }

unfoldable pub add : Time → ℤ → Time
add t v = add_assign t v

unfoldable pub sub : Time → ℤ → Time
sub t v = sub_assign t v

unfoldable pub time_eq : Time → Time → Bool
time_eq a b = eqb_ℤ a.seconds b.seconds

unfoldable pub time_ne : Time → Time → Bool
time_ne a b = not (eqb_ℤ a.seconds b.seconds)

unfoldable pub time_lt : Time → Time → Bool
time_lt a b = ltb_ℤ a.seconds b.seconds

unfoldable pub time_le : Time → Time → Bool
time_le a b = not (ltb_ℤ b.seconds a.seconds)

unfoldable pub time_gt : Time → Time → Bool
time_gt a b = ltb_ℤ b.seconds a.seconds

unfoldable pub time_ge : Time → Time → Bool
time_ge a b = not (ltb_ℤ a.seconds b.seconds)

-- `operator-(const Time&)`: the seconds from `t` on to the next `s`.
unfoldable pub difference : Time → Time → ℤ
difference s t =
    if ltb_ℤ s.seconds t.seconds
    then s.seconds +ℤ pos c_day -ℤ t.seconds
    else s.seconds -ℤ t.seconds

-- `Time::put` into a buffer, from place `at`. Each field is read back before the next is written.
unfoldable pub put : Time → ℕ → Buffer → Option Buffer
put t at buffer = do
  let b = set (set buffer (at + 2) b':') (at + 5) b':'
  b1 ← znumber_set (number at 2) ((t.seconds /ℤ 3600) %ℤ 24) b
  b2 ← znumber_set (number (at + 3) 2) ((t.seconds -ℤ 3600 *ℤ number_at b1 at 2) /ℤ 60) b1
  b3 ←
      znumber_set (number (at + 6) 2)
        (t.seconds -ℤ 3600 *ℤ number_at b2 at 2 -ℤ 60 *ℤ number_at b2 (at + 3) 2) b2
  some (set b3 (at + 8) 0)
