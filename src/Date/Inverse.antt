-- ===== src/Date/Inverse.antt =====
-- `Date::put` undoes `Date::set`: the year, the month and the day come back.
use commoncpp.Common.{
  ℕ, ◌+◌, ◌-◌, ◌*◌, ◌/◌, ◌%◌, ◌≤◌, ◌≡◌, ◌⊎◌, refl, sym, ap, ◌∙◌, arith, ltb, if◌then◌else◌, true,
  ◌==◌, not, ◌≢◌, inl, inr, some,
}
use commoncpp.Common.Int.{pos}
use commoncpp.Date.{civil}
use commoncpp.Date.Days.{is_leap, days_in_month, long_or_short, IsCalendar, month_cases, ordinal}
use commoncpp.Date.DayNumber.{march_days, march_year}
use commoncpp.Date.Count.{julian-ordinal, epoch}
use commoncpp.Date.Steps.{month_of, day_of, civil_steps, month_bounds}

-- The day number past the start of the count, for day `t` of year `q` of century `c`.
module _ (c q t : ℕ) (hq : q ≤ 99) (ht : t ≤ 365)
    (leap : (t ≤ 364) ⊎ ((q % 4 ≡ 3) × ((q ≤ 98) ⊎ (c % 4 ≡ 0)))) where
  abbrev rest : ℕ
  rest = 1461 * q / 4 + t

  abbrev long : ℕ
  long = (146097 * c + 3) / 4 + rest

  century : 4 * long / 146097 ≡ c
  century = omega arith

  year_of_century : 4000 * (rest + 1) / 1461001 ≡ q
  year_of_century = omega arith

  year_back : (146097 * c + 3) / 4 + (rest + 31) - (146097 * c + 3) / 4 - 1461 * q / 4 ≡ t + 31
  year_back = omega arith

record Split (m d : ℕ) : Type 0 where
  month_back : month_of (march_days m + d - 31) ≡ m
  day_back : day_of (march_days m + d - 31) ≡ d
  wraps : 80 * (march_days m + d - 31 + 31) / 2447 / 11 ≡ (if ltb m 3 then 1 else 0)

-- The days of a month, a 29th of February among them.
abbrev days_in_table : ℕ → ℕ
days_in_table m = if not (m == 2) then long_or_short m else 29

split : (m d : ℕ) → 1 ≤ m → m ≤ 12 → 1 ≤ d → d ≤ days_in_table m → Split m d
split m d lo hi =
    month_cases (λ m. 1 ≤ d → d ≤ days_in_table m → Split m d) (λ p q. omega arith)
      (λ p q. omega arith) (λ p q. omega arith) (λ p q. omega arith) (λ p q. omega arith)
      (λ p q. omega arith) (λ p q. omega arith) (λ p q. omega arith) (λ p q. omega arith)
      (λ p q. omega arith) (λ p q. omega arith) (λ p q. omega arith) m lo hi

leap_facts : (y : ℕ) → is_leap y ≡ true → (y % 4 ≡ 0) × ((y % 100 ≢ 0) ⊎ (y % 400 ≡ 0))
unfolding is_leap
leap_facts y h = ground arith

-- The year that begins in March has a 366th day just if its February has a 29th.
short_or_leap :
    (y m d : ℕ)
    → 1 ≤ m
    → m ≤ 12
    → d ≤ days_in_month y m
    → (march_days m + d - 31 ≤ 364) ⊎ ((m ≡ 2) × (d ≡ 29) × (is_leap y ≡ true))
unfolding days_in_month
short_or_leap y m d =
    month_cases
      (λ m.
        d ≤ days_in_month y m
        → (march_days m + d - 31 ≤ 364) ⊎ ((m ≡ 2) × (d ≡ 29) × (is_leap y ≡ true)))
      (λ h. ground arith) (λ h. ground arith) (λ h. ground arith) (λ h. ground arith)
      (λ h. ground arith) (λ h. ground arith) (λ h. ground arith) (λ h. ground arith)
      (λ h. ground arith) (λ h. ground arith) (λ h. ground arith) (λ h. ground arith) m

last_day :
    (z : ℕ)
    → z % 4 ≡ 3
    → (z % 100 ≢ 99) ⊎ (z % 400 ≡ 99)
    → (z % 100 % 4 ≡ 3) × ((z % 100 ≤ 98) ⊎ (z / 100 % 4 ≡ 0))
last_day z h (inl p) = (omega arith, inl (omega arith))
last_day z h (inr p) = (omega arith, inr (omega arith))

-- The leap rule, in the year that begins in March.
leap_rule :
    (y m d : ℕ)
    → IsCalendar y m d
    → let t = march_days m + d - 31 in
      let z = march_year y m in
      (t ≤ 364) ⊎ ((z % 100 % 4 ≡ 3) × ((z % 100 ≤ 98) ⊎ (z / 100 % 4 ≡ 0)))
leap_rule y m d v = elim (short_or_leap y m d v.month_pos v.month_le v.day_le) [
  | inl h ↦ inl h
  | inr (em, ed, leap) ↦
      let (four, other) = leap_facts y leap in
      rw em (
        inr (
          last_day (y + 4899) (omega arith)
            (elim other [ inl p ↦ inl (omega arith) | inr p ↦ inr (omega arith) ])))
]

-- The day number past the start of the count.
long_form :
    (z d k : ℕ)
    → 4900 ≤ z
    → 31 ≤ k + d
    → d + 1461 * (z - 100) / 4 + k - 3 * (z / 100) / 4 - 32075 + 68569
      ≡ (146097 * (z / 100) + 3) / 4 + (1461 * (z % 100) / 4 + (k + d - 31))
long_form z d k hz hd = omega arith

march_days-le : (m : ℕ) → 1 ≤ m → m ≤ 12 → 30 ≤ march_days m
march_days-le m lo hi = ground arith

march_year-le : (y m : ℕ) → 1 ≤ y → 4900 ≤ march_year y m
march_year-le y m h = ground arith

-- The year of the calendar, from the century and the year in it.
year_form :
    (y m : ℕ)
    → 1 ≤ y
    → 100 * (march_year y m / 100 - 49) + march_year y m % 100 + (if ltb m 3 then 1 else 0) ≡ y
year_form y m h = ground arith

-- The steps of `Date::put` at day `t` of year `q` of century `c`.
civil-long :
    (J c q t : ℕ)
    → 49 ≤ c
    → q ≤ 99
    → t ≤ 365
    → (t ≤ 364) ⊎ ((q % 4 ≡ 3) × ((q ≤ 98) ⊎ (c % 4 ≡ 0)))
    → J + 68569 ≡ (146097 * c + 3) / 4 + (1461 * q / 4 + t)
    → c ≤ 50050
    → civil (pos J)
      ≡ some (record {
        year = pos (100 * (c - 49) + q + 80 * (t + 31) / 2447 / 11);
        month = pos (month_of t);
        day = pos (day_of t);
      })
civil-long J c q t hc hq ht leap e small =
    civil_steps (long c q t hq ht leap) c (1461 * q / 4 + t) q t J e (century c q t hq ht leap)
      (omega arith) (omega arith) (year_of_century c q t hq ht leap) (omega arith) (omega arith) hc
      (month_bounds t ht).0 (month_bounds t ht).1 (omega arith) hq ht

day_in_year : (y m d : ℕ) → IsCalendar y m d → march_days m + d - 31 ≤ 365
day_in_year y m d v = ground (arith, short_or_leap y m d v.month_pos v.month_le v.day_le)

table_days : (y m d : ℕ) → d ≤ days_in_month y m → d ≤ days_in_table m
unfolding days_in_month
table_days y m d h = ground arith

-- The computation of `Date::put` gives back the year, the month and the day of every date of the
-- Gregorian calendar in the years 1 to 5 000 000, from its day number, and an `int` holds the
-- result of each of its steps.
pub civil-ordinal :
    (y m d : ℕ)
    → IsCalendar y m d
    → y ≤ 5000000
    → civil (pos (epoch + ordinal y m d))
      ≡ some (record { year = pos y; month = pos m; day = pos d })
civil-ordinal y m d v small =
    let z : ℕ = march_year y m in
    let t : ℕ = march_days m + d - 31 in
    let s = split m d v.month_pos v.month_le v.day_pos (table_days y m d v.day_le) in
    let J : ℕ = epoch + ordinal y m d in
    let big : 4900 ≤ z = march_year-le y m v.year_pos in
    let late : 31 ≤ march_days m + d =
      omega (arith, march_days-le m v.month_pos v.month_le, v.day_pos) in
    let e : J + 68569 ≡ (146097 * (z / 100) + 3) / 4 + (1461 * (z % 100) / 4 + t) =
      ap (λ k. k + 68569) (sym (julian-ordinal y m d v.year_pos v.month_pos v.month_le))
      ∙ long_form z d (march_days m) big late in
    civil-long J (z / 100) (z % 100) t (omega arith) (omega arith) (day_in_year y m d v)
      (leap_rule y m d v) e (ground arith)
    ∙ rw (s.month_back, s.day_back, s.wraps, year_form y m v.year_pos) refl
