-- ===== src/DateTime.antt =====
-- The classes DateTime, DateNumber and DateTimeString of corelib/datetime.cpp. `now` is what the C
-- library says of the current time; `mktime` is not called here, its argument is what is modelled.
pub mod Laws
pub mod Text
mod Examples
use commoncpp.Common.{
  ℕ, zero, suc, ◌+◌, Bool, true, false, not, ◌&&◌, ◌||◌, List, [], ◌∷◌, Option, some, ltb, ◌==◌,
  if◌then◌else◌, ◌>>=◌, set, replicate, length,
}
use commoncpp.Common.Int.{ℤ, pos, negsuc, ◌+ℤ◌, ◌-ℤ◌, ◌*ℤ◌, ◌/ℤ◌, ltb_ℤ, eqb_ℤ}
use commoncpp.Numbers.{Buffer, char_at, number, get}
use commoncpp.Date.{Date, Tm, strlen, number_at, local_buffer}
use commoncpp.Date
use commoncpp.Time.{Time, c_day}
use commoncpp.Time

pub record DateTime : Type 0 where
  pub date : Date
  pub time : Time

-- `DateTime(const tm_t *dt)`; the current time, as the default constructor and `set()` take it.
unfoldable pub from_tm : Tm → DateTime
from_tm t = record { date = Date.set_tm t; time = Time.set_tm t }

unfoldable pub from_parts : ℤ → ℤ → ℤ → ℤ → ℤ → ℤ → DateTime
from_parts y m d h min s = record { date = Date.set_date y m d; time = Time.set_time h min s }

-- `strncpy(str, a_str, size); str[size] = 0`.
unfoldable pub copy_text : ℕ → Buffer → Buffer
copy_text zero b = 0 ∷ []
copy_text (suc n) [] = 0 ∷ copy_text n []
copy_text (suc n) (c ∷ b) = c ∷ copy_text n (if c == 0 then [] else b)

-- `DateTime(const char *a_str, size_t size)`: a text of another length leaves the current time.
unfoldable pub from_text : Tm → Buffer → ℕ → DateTime
from_text now a_str size =
    let n = if size == 0 then strlen a_str else size in
    let str = copy_text n a_str in
    let parsed = λ (datelen timestr timelen : ℕ).
      let r : DateTime = record {
        date = Date.set_text now str datelen;
        time = Time.set_text str timestr timelen;
      } in
      r in
    if n == 11
    then parsed 5 6 5
    else if n == 14
    then parsed 8 9 5
    else if n == 17
    then parsed 8 9 8
    else if n == 19
    then parsed 10 11 8
    else from_tm now

unfoldable pub is_valid : DateTime → Bool
is_valid t = Date.is_valid t.date && Time.is_valid t.time

-- `operator!`.
unfoldable pub not_valid : DateTime → Bool
not_valid t = not (Date.is_valid t.date && Time.is_valid t.time)

-- `DateTime::put`.
unfoldable pub put : DateTime → Buffer → Option Buffer
put t buf = do b ← Date.put t.date 0 buf; Time.put t.time 11 (set b 10 b' ')

-- What `DateTime::get` hands to mktime; it reads both texts from the one local buffer.
unfoldable pub time_fields : DateTime → Option Tm
time_fields t = do
  buf ← Date.put t.date 0 local_buffer
  buf' ← Time.put t.time 0 buf
  some (record {
    tm_year = number_at buf 0 4 -ℤ pos 1900;
    tm_mon = number_at buf 5 2 -ℤ pos 1;
    tm_mday = number_at buf 8 2;
    tm_hour = number_at buf' 0 2;
    tm_min = number_at buf' 2 2;
    tm_sec = number_at buf' 4 2;
  })

unfoldable pub update : DateTime → DateTime
update t = record {
  date = record { julian = t.date.julian +ℤ t.time.seconds /ℤ c_day };
  time = record { seconds = Time.update t.time.seconds };
}

abbrev moved : DateTime → ℤ → ℤ → DateTime
moved t j s = update (record { date = record { julian = j }; time = record { seconds = s } })

unfoldable pub add_assign : DateTime → ℤ → DateTime
add_assign t v = moved t t.date.julian (t.time.seconds +ℤ v)

unfoldable pub sub_assign : DateTime → ℤ → DateTime
sub_assign t v = moved t t.date.julian (t.time.seconds -ℤ v)

unfoldable pub increment : DateTime → DateTime
increment t = moved t (t.date.julian +ℤ pos 1) t.time.seconds

unfoldable pub decrement : DateTime → DateTime
decrement t = moved t (t.date.julian -ℤ pos 1) t.time.seconds

unfoldable pub add : DateTime → ℤ → DateTime
add t v = add_assign t v

unfoldable pub sub : DateTime → ℤ → DateTime
sub t v = sub_assign t v

-- `operator-(const DateTime&)`.
unfoldable pub difference : DateTime → DateTime → ℤ
difference s t = c_day *ℤ (s.date.julian -ℤ t.date.julian) +ℤ (s.time.seconds -ℤ t.time.seconds)

unfoldable pub datetime_eq : DateTime → DateTime → Bool
datetime_eq a b = eqb_ℤ a.date.julian b.date.julian && eqb_ℤ a.time.seconds b.time.seconds

unfoldable pub datetime_ne : DateTime → DateTime → Bool
datetime_ne a b =
    not (eqb_ℤ a.date.julian b.date.julian) || not (eqb_ℤ a.time.seconds b.time.seconds)

-- The comparisons, each by the days first.
abbrev by_days : DateTime → DateTime → Bool → Bool → Bool
by_days a b days secs = if not (eqb_ℤ a.date.julian b.date.julian) then days else secs

unfoldable pub datetime_lt : DateTime → DateTime → Bool
datetime_lt a b =
    by_days a b (ltb_ℤ a.date.julian b.date.julian) (ltb_ℤ a.time.seconds b.time.seconds)

unfoldable pub datetime_le : DateTime → DateTime → Bool
datetime_le a b =
    by_days a b (ltb_ℤ a.date.julian b.date.julian) (not (ltb_ℤ b.time.seconds a.time.seconds))

unfoldable pub datetime_gt : DateTime → DateTime → Bool
datetime_gt a b =
    by_days a b (ltb_ℤ b.date.julian a.date.julian) (ltb_ℤ b.time.seconds a.time.seconds)

unfoldable pub datetime_ge : DateTime → DateTime → Bool
datetime_ge a b =
    by_days a b (ltb_ℤ b.date.julian a.date.julian) (not (ltb_ℤ a.time.seconds b.time.seconds))

-- DateNumber: a date over the ten chars of the caller's text, which `update` writes anew.
pub record DateNumber : Type 0 where
  pub buffer : Buffer
  pub date : Date

unfoldable pub date_number : Tm → Buffer → DateNumber
date_number now str = record { buffer = str; date = Date.set_text now str 10 }

unfoldable pub date_number_update : DateNumber → Option DateNumber
date_number_update n = do b ← Date.put n.date 0 n.buffer; some (record n { buffer = b })

-- DateTimeString: a date and time with its text, in one of three forms.
pub data Mode : Type 0 where
  date time both : Mode

pub record DateTimeString : Type 0 where
  pub value : DateTime
  pub mode : Mode
  pub buffer : Buffer

put_mode : Mode → DateTime → Buffer → Option Buffer
put_mode both t b = put t b
put_mode date t b = Date.put t.date 0 b
put_mode time t b = Time.put t.time 0 b

unfoldable pub string_update : DateTimeString → Option DateTimeString
unfolding put_mode
string_update s =
    let t = update s.value in
    do b ← put_mode s.mode t s.buffer; some (record s { value = t; buffer = b })

unfoldable pub string_set_mode : DateTimeString → Mode → Option DateTimeString
string_set_mode s newmode = string_update (record s { mode = newmode })

unfoldable pub string_set_now : Tm → DateTimeString → Option DateTimeString
string_set_now now s = string_update (record s { value = from_tm now })
