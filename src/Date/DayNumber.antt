-- ===== src/Date/DayNumber.antt =====
-- The day number in ℕ.
use commoncpp.Common.{ℕ, ◌+◌, ◌-◌, ◌*◌, ◌/◌, ◌≤◌, ◌≡◌, arith, ltb, if◌then◌else◌}
use commoncpp.Common.Int.{ℤ, int_laws, sub_ℕ, pos, ◌+ℤ◌, ◌-ℤ◌, ◌*ℤ◌, ◌/ℤ◌}
use commoncpp.Date.{day_number}

module _ (a b : ℕ) where
  pub pos-add : pos a +ℤ pos b ≡ pos (a + b)
  unfolding ◌+ℤ◌
  pos-add = ground arith

  pub pos-sub : b ≤ a → pos a -ℤ pos b ≡ pos (a - b)
  unfolding ◌-ℤ◌
  pos-sub h = ground arith

  pub pos-mul : a *ℤ pos b ≡ pos (a * b)
  unfolding ◌*ℤ◌
  pos-mul = ground arith

  pub pos-div : pos a /ℤ b ≡ pos (a / b)
  unfolding ◌/ℤ◌
  pos-div = ground arith

-- (m - 14) / 12 is -1 in January and February, and else 0: the year of the count begins in March.
month_shift :
    (m : ℕ) → 1 ≤ m → m ≤ 12 → (pos m -ℤ pos 14) /ℤ 12 ≡ sub_ℕ 0 (if ltb m 3 then 1 else 0)
unfolding ◌-ℤ◌ ◌/ℤ◌
month_shift m lo hi = ground arith

-- The days of the months before m in a year that begins in March, and 30.
abbrev pub march_days : ℕ → ℕ
march_days m = 367 * (if ltb m 3 then m + 10 else m - 2) / 12

-- The year that begins in March, and 4900.
abbrev pub march_year : ℕ → ℕ → ℕ
march_year y m = if ltb m 3 then y + 4899 else y + 4900

-- The day number, with each of its terms in ℕ.
abbrev pub julian : ℕ → ℕ → ℕ → ℕ
julian y m d =
    let z = march_year y m in d + 1461 * (z - 100) / 4 + march_days m - 3 * (z / 100) / 4 - 32075

module _ (y m : ℕ) (hy : 1 ≤ y) (lo : 1 ≤ m) (hi : m ≤ 12) where
  abbrev shift : ℤ
  shift = (pos m -ℤ pos 14) /ℤ 12

  year_term : (c : ℕ) → 1 ≤ c → pos y +ℤ pos c +ℤ shift ≡ pos (y + c - (if ltb m 3 then 1 else 0))
  year_term c hc = rw (month_shift m lo hi, pos-add y c) (unfold ◌+ℤ◌ in ground arith)

  month_term : pos m -ℤ pos 2 -ℤ 12 *ℤ shift ≡ pos (if ltb m 3 then m + 10 else m - 2)
  month_term = rw (month_shift m lo hi) (unfold ◌-ℤ◌ ◌*ℤ◌ in ground arith)

  shift-march : y + 4900 - (if ltb m 3 then 1 else 0) ≡ march_year y m
  shift-march = ground arith

  shift-march' : y + 4800 - (if ltb m 3 then 1 else 0) ≡ march_year y m - 100
  shift-march' = ground arith

sum_terms :
    (d a b c : ℕ)
    → c + 32075 ≤ d + a + b
    → pos d -ℤ pos 32075 +ℤ pos a +ℤ pos b -ℤ pos c ≡ pos (d + a + b - c - 32075)
sum_terms d a b c h = omega int_laws

term_bound : (d z b : ℕ) → 4900 ≤ z → 3 * (z / 100) / 4 + 32075 ≤ d + 1461 * (z - 100) / 4 + b
term_bound d z b h = omega arith

march_year-le : (y m : ℕ) → 1 ≤ y → 4900 ≤ march_year y m
march_year-le y m h = ground arith

-- Every term of `Date::set` past the first is a number, and the day number is one.
pub day_number-pos :
    (y m d : ℕ) → 1 ≤ y → 1 ≤ m → m ≤ 12 → day_number (pos y) (pos m) (pos d) ≡ pos (julian y m d)
unfolding day_number
day_number-pos y m d hy lo hi =
    let z : ℕ = march_year y m in
    rw
      (
        year_term y m hy lo hi 4800 (omega arith),
        year_term y m hy lo hi 4900 (omega arith),
        month_term y m hy lo hi,
        shift-march y m hy lo hi,
        shift-march' y m hy lo hi,
      )
      (rw
        (
          pos-mul 1461 (z - 100),
          pos-div (1461 * (z - 100)) 4,
          pos-mul 367 (if ltb m 3 then m + 10 else m - 2),
          pos-div (367 * (if ltb m 3 then m + 10 else m - 2)) 12,
          pos-div z 100,
          pos-mul 3 (z / 100),
          pos-div (3 * (z / 100)) 4,
        )
        (sum_terms d (1461 * (z - 100) / 4) (march_days m) (3 * (z / 100) / 4)
          (term_bound d z (march_days m) (march_year-le y m hy))))
