-- ===== src/IsoTime.antt =====
-- corelib/datetime.cpp, class isotime: a date, a time or both, read char by char over the text that
-- shows their old value.
pub mod Feeding
mod Examples
use commoncpp.Common.{
  ℕ, zero, suc, ◌+◌, ◌-◌, ◌*◌, Bool, true, false, ◌&&◌, List, [], ◌∷◌, Option, none, some, ◌==◌,
  if◌then◌else◌, ◌>>=◌, set,
}
use commoncpp.Numbers.{Buffer, char_at, is_digit}
use commoncpp.Date
use commoncpp.Date.{Tm, Date}
use commoncpp.Time
use commoncpp.Time.{Time}

pub data Mode : Type 0 where
  date time datetime : Mode

-- The objects that `d` and `t` point to belong to the caller, and change with the reader's end.
pub record IsoTime : Type 0 where
  pub d : Date
  pub t : Time
  pub mode : Mode
  pub pos : ℕ
  pub buf : Buffer

-- The constructors, at what was in `buf`.
unfoldable pub iso_time : Date → Time → Buffer → Option IsoTime
iso_time d t b = do
  b' ← Time.put t 0 b
  some (record { d = d; t = t; mode = time; pos = 0; buf = b' })

unfoldable pub iso_date : Date → Time → Buffer → Option IsoTime
iso_date d t b = do
  b' ← Date.put d 0 b
  some (record { d = d; t = t; mode = date; pos = 0; buf = b' })

unfoldable pub iso_both : Date → Time → Buffer → Option IsoTime
iso_both d t b = do
  b1 ← Date.put d 0 b
  b2 ← Time.put t 11 (set b1 10 b' ')
  some (record { d = d; t = t; mode = datetime; pos = 0; buf = b2 })

-- The end of `_input`, from `final:` on; `now` is the current time, which `Date::set` asks for.
unfoldable pub finish_mode : Tm → Mode → IsoTime → IsoTime
finish_mode now date r = record r { d = Date.set_text now r.buf 0 }
finish_mode now time r = record r { t = Time.set_text r.buf 0 0 }
finish_mode now datetime r =
    let b = set r.buf 10 0 in
    record r { buf = b; d = Date.set_text now b 0; t = Time.set_text b 11 0 }

abbrev pub finish : Tm → IsoTime → IsoTime
finish now r = finish_mode now r.mode (record r { buf = set r.buf r.pos 0 })

-- `_input` of a char; what it returns is `none` for EOF, which ends the reading.
unfoldable pub input : Tm → IsoTime → ℕ → IsoTime × Option ℕ
unfolding finish_mode
input now r code =
    let written = record r { buf = set r.buf r.pos code; pos = r.pos + 1 } in
    if is_digit (char_at r.buf r.pos) && is_digit code
    then (if char_at written.buf written.pos == 0
        then (finish now written, none)
        else (written, some 0))
    else if code == char_at r.buf r.pos
    then (record r { pos = r.pos + 1 }, some 0)
    else (finish now r, some code)

-- `_input` of EOF.
unfoldable pub input_end : Tm → IsoTime → IsoTime × Option ℕ
input_end now r = (finish now r, none)

-- The chars of a text, one after the other, until one is not taken.
unfoldable pub feed : Tm → IsoTime → List ℕ → IsoTime × Option ℕ
feed now r [] = (r, some 0)
feed now r (c ∷ cs) =
    let rest = feed now (input now r c).0 cs in
    elim (input now r c).1 [
      | none ↦ ((input now r c).0, none)
      | some code ↦ if code == 0 then rest else ((input now r c).0, some code)
    ]
