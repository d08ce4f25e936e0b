-- ===== src/Date/Days.antt =====
-- The day count that the day number of `Date::set` stands for: whole years and whole months of the
-- Gregorian calendar, added up.
use commoncpp.Common.{
  ℕ, zero, suc, ◌+◌, ◌-◌, ◌*◌, ◌/◌, ◌%◌, ◌≤◌, ◌≡◌, refl, Bool, not, ◌||◌, ◌&&◌, arith, ◌==◌,
  if◌then◌else◌,
}

-- Every fourth year, but of the centuries every fourth only.
unfoldable pub is_leap : ℕ → Bool
is_leap y = (y % 400 == 0) || (y % 4 == 0) && not (y % 100 == 0)

-- Long and short months alternate, from January to July and anew from August on.
abbrev pub long_or_short : ℕ → ℕ
long_or_short m = 31 - (m - 1) % 7 % 2

unfoldable pub days_in_month : ℕ → ℕ → ℕ
days_in_month y m = if not (m == 2) then long_or_short m else 28 + (if is_leap y then 1 else 0)

abbrev pub days_in_year : ℕ → ℕ
days_in_year y = 365 + (if is_leap y then 1 else 0)

-- The days of the years 1 to y.
unfoldable pub days_through : ℕ → ℕ
days_through zero = 0
days_through (suc y) = days_through y + days_in_year (suc y)

-- The days of the months 1 to m of a year.
unfoldable pub month_days : ℕ → ℕ → ℕ
month_days y zero = 0
month_days y (suc m) = month_days y m + days_in_month y (suc m)

-- The day of the calendar, counted from 0001-01-01, which is day 1.
unfoldable pub ordinal : ℕ → ℕ → ℕ → ℕ
ordinal y m d = days_through (y - 1) + month_days y (m - 1) + d

pub record IsCalendar (y m d : ℕ) : Type 0 where
  pub year_pos : 1 ≤ y
  pub month_pos : 1 ≤ m
  pub month_le : m ≤ 12
  pub day_pos : 1 ≤ d
  pub day_le : d ≤ days_in_month y m

pub days_through-closed : (y : ℕ) → days_through y + y / 100 ≡ y * 365 + y / 4 + y / 400
unfolding days_through is_leap
days_through-closed zero = refl
days_through-closed (suc y) = ground (arith, days_through-closed y)

-- A proof for each of the twelve months.
pub month_cases {ℓ} :
    (P : ℕ → Type ℓ)
    → P 1
    → P 2
    → P 3
    → P 4
    → P 5
    → P 6
    → P 7
    → P 8
    → P 9
    → P 10
    → P 11
    → P 12
    → (m : ℕ) → 1 ≤ m
    → m ≤ 12
    → P m
month_cases P p1 p2 p3 p4 p5 p6 p7 p8 p9 p10 p11 p12 zero lo hi = absurd (omega arith)
month_cases P p1 p2 p3 p4 p5 p6 p7 p8 p9 p10 p11 p12 (suc zero) lo hi = p1
month_cases P p1 p2 p3 p4 p5 p6 p7 p8 p9 p10 p11 p12 (suc (suc zero)) lo hi = p2
month_cases P p1 p2 p3 p4 p5 p6 p7 p8 p9 p10 p11 p12 (suc (suc (suc zero))) lo hi = p3
month_cases P p1 p2 p3 p4 p5 p6 p7 p8 p9 p10 p11 p12 (suc (suc (suc (suc zero)))) lo hi = p4
month_cases P p1 p2 p3 p4 p5 p6 p7 p8 p9 p10 p11 p12 (suc (suc (suc (suc (suc zero))))) lo hi = p5
month_cases P p1 p2 p3 p4 p5 p6 p7 p8 p9 p10 p11 p12 (suc (suc (suc (suc (suc (suc m)))))) lo hi =
    later m lo hi
  where
    later :
        (m : ℕ)
        → 1 ≤ suc (suc (suc (suc (suc (suc m)))))
        → suc (suc (suc (suc (suc (suc m))))) ≤ 12
        → P (suc (suc (suc (suc (suc (suc m))))))
    later zero lo hi = p6
    later (suc zero) lo hi = p7
    later (suc (suc zero)) lo hi = p8
    later (suc (suc (suc zero))) lo hi = p9
    later (suc (suc (suc (suc zero)))) lo hi = p10
    later (suc (suc (suc (suc (suc zero))))) lo hi = p11
    later (suc (suc (suc (suc (suc (suc zero)))))) lo hi = p12
    later (suc (suc (suc (suc (suc (suc (suc m))))))) lo hi = absurd (omega arith)
