-- ===== src/Date/RoundTrip.antt =====
-- A calendar date through `Date::set`, `Date::put` and back: the accessors, the text, the number.
use native.Mathlib.Decide.{ℕ_discrete}
use commoncpp.Date.DayNumber.{pos-add, pos-mul}
use commoncpp.Common.{
  ℕ, zero, suc, ◌+◌, ◌-◌, ◌*◌, ◌≤◌, ◌<◌, ◌≡◌, ◌≢◌, refl, sym, ap, ◌∙◌, some, [], ◌∷◌, arith, length,
  true, false, ◌>>=◌, ◌==◌, if◌then◌else◌, ◌⊎◌, inl, inr,
}
use commoncpp.Common.Int.{pos}
use commoncpp.Numbers.{Buffer, char_at, is_digit, get, number}
use commoncpp.Numbers.Padded.{field, get-unsigned}
use commoncpp.Numbers.Blanks.{read_digits-stop, read_digits-append}
use commoncpp.Date.{
  Date, Tm, set_date, put, year, month, day, set_text, layout_of, strlen, get_number, atol,
  local_buffer,
}
use commoncpp.Date.Days.{IsCalendar}
use commoncpp.Date.Count.{set_date-ordinal, days_in_month_range}
use commoncpp.Date.Inverse.{civil-ordinal}
use commoncpp.Date.Text.{IsoDate, put_civil-IsoDate}

module _ (y m d : ℕ) (v : IsCalendar y m d) (hy : y ≤ 9999) where
  abbrev pub date : Date
  date = set_date (pos y) (pos m) (pos d)

  -- `Date::put` writes the text of the date that was set.
  pub put-set_date :
      (at : ℕ) (b : Buffer)
      → at + 11 ≤ length b
      → (c : Buffer) × (put date at b ≡ some c) × IsoDate at y m d b c
  unfolding put
  put-set_date at b room =
      let small : d < 100 = omega (arith, days_in_month_range y m, v.day_le) in
      let (c, e, iso) =
        put_civil-IsoDate at y m d b (omega arith) (omega (arith, v.month_le)) small room in
      (c, rw (set_date-ordinal y m d v, civil-ordinal y m d v (omega arith), ◌>>=◌) e, iso)

  -- For a calendar date in the years 1 to 9999 the accessors give back the year, the month and the
  -- day that were set.
  pub fields-set_date :
      (year date ≡ some (pos y)) × (month date ≡ some (pos m)) × (day date ≡ some (pos d))
  unfolding year month day number
  fields-set_date =
      let (c, e, iso) = put-set_date 0 local_buffer (omega arith) in
      (
        rw (e, ◌>>=◌) (ap some iso.year_reads),
        rw (e, ◌>>=◌) (ap some iso.month_reads),
        rw (e, ◌>>=◌) (ap some iso.day_reads),
      )

pub strlen-eq :
    (n : ℕ) (b : Buffer) → ((i : ℕ) → i < n → char_at b i ≢ 0) → char_at b n ≡ 0 → strlen b ≡ n
unfolding strlen
strlen-eq zero [] h e = refl
strlen-eq (suc n) [] h e = absurd (h 0 (omega arith) refl)
strlen-eq zero (c ∷ b) h e = rw e refl
strlen-eq (suc n) (c ∷ b) h e =
    ground (arith, h 0 (omega arith), strlen-eq n b (λ i p. h (suc i) (omega arith)) e)

pub digit-ne_zero : (b : Buffer) (i : ℕ) → is_digit (char_at b i) ≡ true → char_at b i ≢ 0
digit-ne_zero b i h = ground arith

module _ (y m d : ℕ) (b c : Buffer) (iso : IsoDate 0 y m d b c) where
  pub text_char : (i : ℕ) → i < 10 → char_at c i ≢ 0
  text_char i hi = elim (ℕ_discrete i 4) [
    | yes p ↦ rw p (λ e. omega (arith, iso.first_dash))
    | no p ↦ elim (ℕ_discrete i 7) [
      | yes q ↦ rw q (λ e. omega (arith, iso.second_dash))
      | no q ↦ digit-ne_zero c i (iso.digits i (omega arith) hi p q)
    ]
  ]

  strlen-IsoDate : strlen c ≡ 10
  strlen-IsoDate = strlen-eq 10 c text_char iso.end

  layout-IsoDate :
      (now : Tm) → layout_of now c 10 ≡ some (record { nyear = pos y; mstr = 5; dstr = 8 })
  unfolding layout_of number
  layout-IsoDate now = rw iso.year_reads refl

  text_size : (size : ℕ) → (size ≡ 0) ⊎ (size ≡ 10) → (if size == 0 then strlen c else size) ≡ 10
  text_size size (inl e) = rw e strlen-IsoDate
  text_size size (inr e) = rw e refl

  pub set_text-IsoDate :
      (now : Tm) (size : ℕ)
      → (size ≡ 0) ⊎ (size ≡ 10)
      → set_text now c size ≡ set_date (pos y) (pos m) (pos d)
  unfolding set_text number
  set_text-IsoDate now size h =
      rw (text_size size h, layout-IsoDate now, iso.month_reads, iso.day_reads) refl

  -- A number of the text ends at the char behind its field.
  atol-field :
      (at j v : ℕ)
      → get (field at j) c ≡ pos v
      → ((i : ℕ) → at ≤ i → i < at + suc j → is_digit (char_at c i) ≡ true)
      → is_digit (char_at c (at + suc j)) ≡ false
      → suc j ≤ length c
      → atol c at ≡ pos v
  unfolding atol
  atol-field at j v e digits stop room =
      ap pos (
        read_digits-append (suc j) (length c - suc j) (length c) at 0 c (omega arith) digits
        ∙ read_digits-stop (length c - suc j) (at + suc j) _ c stop)
      ∙ (sym (get-unsigned (field at j) c (digits at (omega arith) (omega arith))) ∙ e)

module _ (y m d : ℕ) (v : IsCalendar y m d) (hy : y ≤ 9999) where
  -- For a date of the Gregorian calendar in the years 1 to 9999 and a buffer of at least 11 chars,
  -- `Date::put` writes a text that `Date::set` reads back as the same date, whether its size is
  -- given as 10 or left to be found.
  pub date_text-put :
      (now : Tm) (size : ℕ) (b : Buffer)
      → (size ≡ 0) ⊎ (size ≡ 10)
      → 11 ≤ length b
      → (c : Buffer) × (put (date y m d v hy) 0 b ≡ some c)
        × (set_text now c size ≡ date y m d v hy)
  date_text-put now size b hs room =
      let (c, e, iso) = put-set_date y m d v hy 0 b (omega arith) in
      (c, e, set_text-IsoDate y m d b c iso now size hs)

  -- For a calendar date in the years 1 to 9999 `Date::get` gives the number whose decimal digits
  -- are yyyymmdd.
  pub get_number-set_date : get_number (date y m d v hy) ≡ some (pos (y * 10000 + m * 100 + d))
  unfolding get_number
  get_number-set_date =
      let (c, e, iso) = put-set_date y m d v hy 0 local_buffer (omega arith) in
      let len : length c ≡ 11 = iso.same_length in
      rw
        (
          e,
          ◌>>=◌,
          atol-field y m d local_buffer c iso 0 3 y iso.year_reads
              (λ i lo hi. iso.digits i lo (omega arith) (omega arith) (omega arith))
              (rw iso.first_dash refl) (omega arith),
          atol-field y m d local_buffer c iso 5 1 m iso.month_reads
              (λ i lo hi. iso.digits i (omega arith) (omega arith) (omega arith) (omega arith))
              (rw iso.second_dash refl) (omega arith),
          atol-field y m d local_buffer c iso 8 1 d iso.day_reads
              (λ i lo hi. iso.digits i (omega arith) (omega arith) (omega arith) (omega arith))
              (rw iso.end refl) (omega arith),
          pos-mul 10000 y,
          pos-mul 100 m,
          pos-add (10000 * y) (100 * m),
          pos-add (10000 * y + 100 * m) d,
        )
        (ap some (ap pos (omega arith)))
