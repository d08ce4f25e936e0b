-- ===== src/Date/Order.antt =====
-- Consecutive days, the comparison operators, and the day of the week.
use native.Mathlib.Nat.{add_assoc}
use native.Mathlib.Decide.{dec_lt}
use commoncpp.Date.DayNumber.{pos-add, pos-sub}
use commoncpp.Common.{
  ℕ, zero, suc, ◌+◌, ◌-◌, ◌%◌, ◌≤◌, ◌<◌, ◌≡◌, ◌↔◌, ◌⊎◌, inl, inr, refl, ap, arith, true, ltb,
  if◌then◌else◌,
}
use commoncpp.Common.Int.{pos, ◌%ℤ◌}
use commoncpp.Date.{Date, set_date, increment, decrement, dow, date_eq, date_lt}
use commoncpp.Date.Days.{days_in_month, days_in_year, days_through, month_days, ordinal, IsCalendar}
use commoncpp.Date.Count.{set_date-ordinal, epoch, days_in_month_range}

-- A date of the calendar.
pub record Ymd : Type 0 where
  pub y : ℕ
  pub m : ℕ
  pub d : ℕ

abbrev pub Real : Ymd → Type 0
Real t = IsCalendar t.y t.m t.d

abbrev pub set_ymd : Ymd → Date
set_ymd t = set_date (pos t.y) (pos t.m) (pos t.d)

-- The day after.
unfoldable pub next_day : Ymd → Ymd
next_day t =
    if ltb t.d (days_in_month t.y t.m)
    then record t { d = t.d + 1 }
    else if ltb t.m 12
    then record { y = t.y; m = t.m + 1; d = 1 }
    else record { y = t.y + 1; m = 1; d = 1 }

twelve_months : (y : ℕ) → month_days y 12 ≡ days_in_year y
unfolding month_days days_in_month
twelve_months y = ground arith

month_days_none : (y : ℕ) → month_days y 0 ≡ 0
unfolding month_days
month_days_none y = refl

month_days-step : (y m : ℕ) → 1 ≤ m → month_days y m ≡ month_days y (m - 1) + days_in_month y m
unfolding month_days
month_days-step y zero h = absurd (omega arith)
month_days-step y (suc m) h = let e : suc m - 1 ≡ m = omega arith in rw e refl

days_through-step : (y : ℕ) → 1 ≤ y → days_through y ≡ days_through (y - 1) + days_in_year y
unfolding days_through
days_through-step zero h = absurd (omega arith)
days_through-step (suc y) h = let e : suc y - 1 ≡ y = omega arith in rw e refl

next_day-Real : (t : Ymd) → Real t → Real (next_day t)
unfolding next_day
next_day-Real t v =
    ground (arith, days_in_month_range t.y (t.m + 1), days_in_month_range (t.y + 1) 1)

ordinal-next_day :
    (t : Ymd)
    → Real t
    → ordinal (next_day t).y (next_day t).m (next_day t).d ≡ ordinal t.y t.m t.d + 1
unfolding next_day ordinal
ordinal-next_day t v =
    let e : t.y + 1 - 1 ≡ t.y = omega arith in
    let e' : t.m + 1 - 1 ≡ t.m = omega arith in
    ground (
      arith,
      e,
      e',
      month_days-step t.y t.m v.month_pos,
      days_through-step t.y v.year_pos,
      twelve_months t.y,
      month_days_none (t.y + 1),
    )

-- `operator++` goes from a calendar date to the next one: over the ends of months, of years and of
-- Februaries of either length.
pub increment-set_ymd : (t : Ymd) → Real t → increment (set_ymd t) ≡ set_ymd (next_day t)
unfolding increment
increment-set_ymd t v =
    let n : Ymd = next_day t in
    let w : Real n = next_day-Real t v in
    rw
      (
        set_date-ordinal t.y t.m t.d v,
        set_date-ordinal n.y n.m n.d w,
        ordinal-next_day t v,
        pos-add (epoch + ordinal t.y t.m t.d) 1,
        add_assoc epoch (ordinal t.y t.m t.d) 1,
      )
      refl

-- `operator--` goes from the calendar date after a date back to it.
pub decrement-next_day : (t : Ymd) → Real t → decrement (set_ymd (next_day t)) ≡ set_ymd t
unfolding decrement
decrement-next_day t v =
    let n : Ymd = next_day t in
    let w : Real n = next_day-Real t v in
    let J : ℕ = ordinal t.y t.m t.d in
    let e : epoch + (J + 1) - 1 ≡ epoch + J = omega arith in
    rw
      (
        set_date-ordinal t.y t.m t.d v,
        set_date-ordinal n.y n.m n.d w,
        ordinal-next_day t v,
        pos-sub (epoch + (J + 1)) 1 (omega arith),
        e,
      )
      refl

-- `Date::dow` of a calendar date is the count of its days from 0001-01-01, which was a Monday,
-- modulo 7, so 0 on Sundays.
pub dow-set_ymd : (t : Ymd) → Real t → dow (set_ymd t) ≡ pos (ordinal t.y t.m t.d % 7)
unfolding dow ◌%ℤ◌
dow-set_ymd t v =
    let J : ℕ = ordinal t.y t.m t.d in
    rw (set_date-ordinal t.y t.m t.d v, pos-add (epoch + J) 1) (ground arith)

month_days_mono : (y m k : ℕ) → month_days y m ≤ month_days y (m + k)
month_days_mono y m zero = let e : m + 0 ≡ m = omega arith in rw e (omega arith)
month_days_mono y m (suc k) =
    let e : m + suc k - 1 ≡ m + k = omega arith in
    omega (arith, rw e at (month_days-step y (m + suc k) (omega arith)), month_days_mono y m k)

days_through_mono : (y k : ℕ) → days_through y ≤ days_through (y + k)
days_through_mono y zero = let e : y + 0 ≡ y = omega arith in rw e (omega arith)
days_through_mono y (suc k) =
    let e : y + suc k - 1 ≡ y + k = omega arith in
    omega (arith, rw e at (days_through-step (y + suc k) (omega arith)), days_through_mono y k)

day_of_year_le : (t : Ymd) → Real t → month_days t.y (t.m - 1) + t.d ≤ days_in_year t.y
day_of_year_le t v =
    let e : t.m + (12 - t.m) ≡ 12 = omega (arith, v.month_le) in
    omega (
      arith,
      month_days-step t.y t.m v.month_pos,
      rw e at (month_days_mono t.y t.m (12 - t.m)),
      twelve_months t.y,
      v.day_le,
    )

-- The order of the calendar: by year, then month, then day.
pub data Before (a b : Ymd) : Type 0 where
  by_year : a.y < b.y → Before a b
  by_month : a.y ≡ b.y → a.m < b.m → Before a b
  by_day : a.y ≡ b.y → a.m ≡ b.m → a.d < b.d → Before a b

Before-ordinal :
    (a b : Ymd) → Real a → Real b → Before a b → ordinal a.y a.m a.d < ordinal b.y b.m b.d
unfolding ordinal
Before-ordinal a b va vb (by_year lt) =
    let e : a.y + (b.y - 1 - a.y) ≡ b.y - 1 = omega arith in
    omega (
      arith,
      days_through-step a.y va.year_pos,
      day_of_year_le a va,
      rw e at (days_through_mono a.y (b.y - 1 - a.y)),
      vb.day_pos,
    )
Before-ordinal a b va vb (by_month y lt) =
    let e : a.m + (b.m - 1 - a.m) ≡ b.m - 1 = omega arith in
    rw (← y) (
      omega (
        arith,
        month_days-step a.y a.m va.month_pos,
        va.day_le,
        vb.day_pos,
        rw e at (month_days_mono a.y a.m (b.m - 1 - a.m)),
      ))
Before-ordinal a b va vb (by_day y m lt) = rw (← y, ← m) (omega arith)

ymd_eq : (a b : Ymd) → a.y ≡ b.y → a.m ≡ b.m → a.d ≡ b.d → a ≡ b
ymd_eq a b p q r = ground arith

trichotomy : (a b : Ymd) → Before a b ⊎ ((a ≡ b) ⊎ Before b a)
trichotomy a b = elim (dec_lt a.y b.y) [
  | yes p ↦ inl (by_year p)
  | no ny ↦ elim (dec_lt b.y a.y) [
    | yes p ↦ inr (inr (by_year p))
    | no ny' ↦ elim (dec_lt a.m b.m) [
      | yes p ↦ inl (by_month (omega arith) p)
      | no nm ↦ elim (dec_lt b.m a.m) [
        | yes p ↦ inr (inr (by_month (omega arith) p))
        | no nm' ↦ elim (dec_lt a.d b.d) [
          | yes p ↦ inl (by_day (omega arith) (omega arith) p)
          | no nd ↦ elim (dec_lt b.d a.d) [
            | yes p ↦ inr (inr (by_day (omega arith) (omega arith) p))
            | no nd' ↦ inr (inl (ymd_eq a b (omega arith) (omega arith) (omega arith)))
          ]
        ]
      ]
    ]
  ]
]

module _ (a b : Ymd) (va : Real a) (vb : Real b) where
  lt-ordinal :
      (date_lt (set_ymd a) (set_ymd b) ≡ true) ↔ (ordinal a.y a.m a.d < ordinal b.y b.m b.d)
  unfolding date_lt
  lt-ordinal = rw (set_date-ordinal a.y a.m a.d va, set_date-ordinal b.y b.m b.d vb) (ground arith)

  eq-ordinal :
      (date_eq (set_ymd a) (set_ymd b) ≡ true) ↔ (ordinal a.y a.m a.d ≡ ordinal b.y b.m b.d)
  unfolding date_eq
  eq-ordinal = rw (set_date-ordinal a.y a.m a.d va, set_date-ordinal b.y b.m b.d vb) (ground arith)

  -- `operator<` of two calendar dates holds just when the first comes before the second by year,
  -- then month, then day.
  pub date_lt-Before : (date_lt (set_ymd a) (set_ymd b) ≡ true) ↔ Before a b
  date_lt-Before = (
    λ h. elim (trichotomy a b) [
      | inl p ↦ p
      | inr (inl e) ↦ absurd (omega (arith, lt-ordinal.0 h, ap (λ t. ordinal t.y t.m t.d) e))
      | inr (inr p) ↦ absurd (omega (arith, lt-ordinal.0 h, Before-ordinal b a vb va p))
    ],
    λ p. lt-ordinal.1 (Before-ordinal a b va vb p),
  )

  -- `operator==` of two calendar dates holds just when their year, month and day are the same.
  pub date_eq-eq : (date_eq (set_ymd a) (set_ymd b) ≡ true) ↔ (a ≡ b)
  date_eq-eq = (
    λ h. elim (trichotomy a b) [
      | inl p ↦ absurd (omega (arith, eq-ordinal.0 h, Before-ordinal a b va vb p))
      | inr (inl e) ↦ e
      | inr (inr p) ↦ absurd (omega (arith, eq-ordinal.0 h, Before-ordinal b a vb va p))
    ],
    λ e. eq-ordinal.1 (ap (λ t. ordinal t.y t.m t.d) e),
  )
