-- ===== src/DateTime/Text.antt =====
-- The text of a DateTime, and the fields that it hands to mktime.
use native.Mathlib.Decide.{dec_lt, ℕ_discrete}
use commoncpp.Common.{
  ℕ, zero, suc, ◌+◌, ◌-◌, ◌*◌, ◌/◌, ◌%◌, ◌≤◌, ◌<◌, ◌≡◌, ◌≢◌, ◌⊎◌, inl, inr, refl, sym, ap, ◌∙◌,
  some, arith, length, true, set, length-set, get_or-set_self, ◌>>=◌, ◌==◌, if◌then◌else◌, [], ◌∷◌,
}
use commoncpp.Common.Int.{pos, ◌-ℤ◌}
use commoncpp.Numbers.{Buffer, char_at, is_digit, get, number, read_digits}
use commoncpp.Numbers.Fields.{get-congr}
use commoncpp.Numbers.Padded.{field}
use commoncpp.Date.{Date, Tm, strlen, number_at, layout_of, local_buffer, set_date}
use commoncpp.Date
use commoncpp.Date.Days.{IsCalendar}
use commoncpp.Date.Text.{IsoDate, char_at-set_ne}
use commoncpp.Date.RoundTrip.{put-set_date, strlen-eq, digit-ne_zero, set_text-IsoDate, text_char}
use commoncpp.Time.{Time, c_day}
use commoncpp.Time
use commoncpp.Time.Laws.{at_second, set_time-pos}
use commoncpp.Time.Text.{IsoTime, put-IsoTime, set_text-IsoTime}
use commoncpp.DateTime.{DateTime, from_text, copy_text, put, time_fields}

-- A date's text is read from its ten chars alone, and a time's from its eight.
date_text-congr :
    (now : Tm) (b c : Buffer)
    → ((i : ℕ) → i < 10 → char_at b i ≡ char_at c i)
    → Date.set_text now b 10 ≡ Date.set_text now c 10
unfolding Date.set_text layout_of number
date_text-congr now b c h =
    rw
      (
        get-congr (field 0 3) b c (omega arith) (λ i lo hi. h i (omega arith)),
        get-congr (field 5 1) b c (omega arith) (λ i lo hi. h i (omega arith)),
        get-congr (field 8 1) b c (omega arith) (λ i lo hi. h i (omega arith)),
      )
      refl

time_text-congr :
    (at : ℕ) (b c : Buffer)
    → ((i : ℕ) → at ≤ i → i < at + 8 → char_at b i ≡ char_at c i)
    → Time.set_text b at 8 ≡ Time.set_text c at 8
unfolding Time.set_text number
time_text-congr at b c h =
    rw
      (
        get-congr (field at 1) b c (omega arith) (λ i lo hi. h i (omega arith) (omega arith)),
        get-congr (field (at + 3) 1) b c (omega arith) (λ i lo hi. h i (omega arith) (omega arith)),
        get-congr (field (at + 6) 1) b c (omega arith) (λ i lo hi. h i (omega arith) (omega arith)),
      )
      refl

char_at-copy_text :
    (n : ℕ) (b : Buffer)
    → ((i : ℕ) → i < n → char_at b i ≢ 0)
    → (i : ℕ) → i < n
    → char_at (copy_text n b) i ≡ char_at b i
unfolding copy_text
char_at-copy_text zero b h i p = absurd (omega arith)
char_at-copy_text (suc n) [] h i p = absurd (h 0 (omega arith) refl)
char_at-copy_text (suc n) (c ∷ b) h zero p = refl
char_at-copy_text (suc n) (c ∷ b) h (suc i) p = ground (
  arith,
  h 0 (omega arith),
  char_at-copy_text n b (λ k q. h (suc k) (omega arith)) i (omega arith),
)

-- What `DateTime::put` writes: both texts, a space between them.
record IsoBoth (y m d s : ℕ) (b1 c : Buffer) : Type 0 where
  same_date : (i : ℕ) → i < 10 → char_at c i ≡ char_at b1 i
  space : char_at c 10 ≡ 32
  time_iso : IsoTime 11 (s / 3600) (s / 60 % 60) (s % 60) (set b1 10 32) c

module _ (y m d s : ℕ) (v : IsCalendar y m d) (hy : y ≤ 9999) (hs : s < c_day) where
  abbrev pub moment : DateTime
  moment = record { date = set_date (pos y) (pos m) (pos d); time = at_second s }

  put-moment :
      (b : Buffer)
      → 20 ≤ length b
      → (b1 : Buffer) × (c : Buffer) × (put moment b ≡ some c)
        × IsoDate 0 y m d b b1
        × IsoBoth y m d s b1 c
  unfolding put
  put-moment b room =
      let (b1, e1, iso1) = put-set_date y m d v hy 0 b (omega arith) in
      let (c, e, iso) =
        put-IsoTime s 11 (set b1 10 32) hs (omega (arith, length-set b1 10 32, iso1.same_length)) in
      (
        b1,
        c,
        rw (e1, ◌>>=◌) e,
        iso1,
        record {
          same_date = λ i p. iso.before i (omega arith) ∙ char_at-set_ne b1 10 i 32 (omega arith);
          space =
              iso.before 10 (omega arith)
              ∙ get_or-set_self b1 10 32 0 (omega (arith, iso1.same_length));
          time_iso = iso;
        },
      )

module _ (y m d s : ℕ) (b b1 c : Buffer) (iso : IsoDate 0 y m d b b1)
    (both : IsoBoth y m d s b1 c) where
  both_char : (i : ℕ) → i < 19 → char_at c i ≢ 0
  both_char i hi = elim (dec_lt i 10) [
    | yes p ↦ λ e. text_char y m d b b1 iso i p (sym (both.same_date i p) ∙ e)
    | no p ↦ elim (ℕ_discrete i 10) [
      | yes q ↦ λ e. omega (arith, both.space, rw q at e)
      | no q ↦ late i hi (omega arith)
    ]
  ]
    where
      open both use {time_iso}

      late : (i : ℕ) → i < 19 → 11 ≤ i → char_at c i ≢ 0
      late i hi lo = elim (ℕ_discrete i 13) [
        | yes p ↦ rw p (λ e. omega (arith, time_iso.first_colon))
        | no p ↦ elim (ℕ_discrete i 16) [
          | yes q ↦ rw q (λ e. omega (arith, time_iso.second_colon))
          | no q ↦ digit-ne_zero c i (time_iso.digits i lo hi p q)
        ]
      ]

  both_length : (size : ℕ) → (size ≡ 0) ⊎ (size ≡ 19) → (if size == 0 then strlen c else size) ≡ 19
  both_length size (inl e) = rw e (strlen-eq 19 c both_char both.time_iso.end)
  both_length size (inr e) = rw e refl

  date_part : (now : Tm) → Date.set_text now (copy_text 19 c) 10 ≡ set_date (pos y) (pos m) (pos d)
  date_part now =
      date_text-congr now (copy_text 19 c) b1
        (λ i p. char_at-copy_text 19 c both_char i (omega arith) ∙ both.same_date i p)
      ∙ set_text-IsoDate y m d b b1 iso now 10 (inr refl)

  time_part : s < c_day → Time.set_text (copy_text 19 c) 11 8 ≡ at_second s
  time_part hs =
      time_text-congr 11 (copy_text 19 c) c (λ i lo hi. char_at-copy_text 19 c both_char i hi)
      ∙ (set_text-IsoTime 11 (s / 3600) (s / 60 % 60) (s % 60) (set b1 10 32) c both.time_iso 8
            (inr refl)
          ∙ (set_time-pos (s / 3600) (s / 60 % 60) (s % 60) (omega arith) (omega arith)
                (omega arith)
              ∙ ap at_second (omega arith)))

  from_text-both :
      (now : Tm) (size : ℕ)
      → s < c_day
      → (size ≡ 0) ⊎ (size ≡ 19)
      → from_text now c size
        ≡ record { date = set_date (pos y) (pos m) (pos d); time = at_second s }
  unfolding from_text
  from_text-both now size hs h = rw (both_length size h, date_part now, time_part hs) refl

-- A field that begins with a colon reads as 0, and one with a colon behind a digit as that digit.
colon_field : (c : Buffer) (at : ℕ) → char_at c at ≡ 58 → get (field at 1) c ≡ pos 0
unfolding get read_digits
colon_field c at e = rw e refl

digit_field :
    (c : Buffer) (at : ℕ)
    → is_digit (char_at c at) ≡ true
    → char_at c (at + 1) ≡ 58
    → get (field at 1) c ≡ pos (char_at c at - 48)
unfolding get read_digits
digit_field c at h e = ground arith

digits_field :
    (c : Buffer) (at : ℕ)
    → is_digit (char_at c at) ≡ true
    → is_digit (char_at c (at + 1)) ≡ true
    → get (field at 1) c ≡ pos ((char_at c at - 48) * 10 + (char_at c (at + 1) - 48))
unfolding get read_digits
digits_field c at h k = ground arith

minute_tail :
    (c : Buffer) (k : ℕ)
    → get (field 3 1) c ≡ pos k
    → is_digit (char_at c 3) ≡ true
    → is_digit (char_at c 4) ≡ true
    → char_at c 5 ≡ 58
    → get (field 4 1) c ≡ pos (k % 10)
minute_tail c k e h3 h4 h5 = digit_field c 4 h4 h5 ∙ ap pos (ground (arith, digits_field c 3 h3 h4))

module _ (y m d s : ℕ) (v : IsCalendar y m d) (hy : y ≤ 9999) (hs : s < c_day) where
  -- For a calendar date in the years 1 to 9999, a second of the day and a buffer of at least 20
  -- chars, `DateTime::put` writes a text that the constructor reads back as the same moment,
  -- whether its size is given as 19 or left to be found.
  pub datetime_text-put :
      (now : Tm) (size : ℕ) (b : Buffer)
      → (size ≡ 0) ⊎ (size ≡ 19)
      → 20 ≤ length b
      → (c : Buffer) × (put (moment y m d s v hy hs) b ≡ some c)
        × (from_text now c size ≡ moment y m d s v hy hs)
  datetime_text-put now size b h room =
      let (b1, c, e, iso, both) = put-moment y m d s v hy hs b room in
      (c, e, from_text-both y m d s b b1 c iso both now size hs h)

  -- For a calendar date in the years 1 to 9999 and a second of the day `DateTime::get` hands to
  -- mktime the date and the hour, 0 as the minute whatever the minute is, and the last digit of the
  -- minute as the second.
  pub time_fields-moment :
      time_fields (moment y m d s v hy hs)
      ≡ some (record {
        tm_year = pos y -ℤ pos 1900;
        tm_mon = pos m -ℤ pos 1;
        tm_mday = pos d;
        tm_hour = pos (s / 3600);
        tm_min = pos 0;
        tm_sec = pos (s / 60 % 10);
      })
  unfolding time_fields number
  time_fields-moment =
      let (b1, e1, iso1) = put-set_date y m d v hy 0 local_buffer (omega arith) in
      let (c, e, iso) = put-IsoTime s 0 b1 hs (omega (arith, iso1.same_length)) in
      rw
        (
          e1,
          ◌>>=◌,
          e,
          iso1.year_reads,
          iso1.month_reads,
          iso1.day_reads,
          iso.hour_reads,
          colon_field c 2 iso.first_colon,
          minute_tail c (s / 60 % 60) iso.minute_reads
              (iso.digits 3 (omega arith) (omega arith) (omega arith) (omega arith))
              (iso.digits 4 (omega arith) (omega arith) (omega arith) (omega arith))
              iso.second_colon,
        )
        (ap
          (λ k. some (record {
            tm_year = pos y -ℤ pos 1900;
            tm_mon = pos m -ℤ pos 1;
            tm_mday = pos d;
            tm_hour = pos (s / 3600);
            tm_min = pos 0;
            tm_sec = pos k;
          }))
          (omega arith))
