-- ===== src/Date/Steps.antt =====
-- The steps of `Date::put` in natural numbers.
use commoncpp.Common.{ℕ, ◌+◌, ◌-◌, ◌*◌, ◌/◌, ◌≤◌, ◌≡◌, refl, arith, ◌<◌, ◌^◌, some, ◌>>=◌}
use commoncpp.Common.Int.{pos}
use commoncpp.Date.{civil, int_of}
use commoncpp.Date.DayNumber.{pos-add, pos-sub, pos-mul, pos-div}

-- The month and the day, from the day of the year that begins in March.
abbrev pub month_of : ℕ → ℕ
month_of t = let j = 80 * (t + 31) / 2447 in j + 2 - 12 * (j / 11)

abbrev pub day_of : ℕ → ℕ
day_of t = t + 31 - 2447 * (80 * (t + 31) / 2447) / 80

-- The cut to an int leaves a number that an int holds.
pub int_of-pos : (x : ℕ) → x < 2 ^ 31 → int_of (pos x) ≡ some (pos x)
unfolding int_of
int_of-pos x h = ground arith

-- `Date::put` in ℕ: each step with the number that it gives.
module _ (l n l1 i t : ℕ) where
  abbrev j : ℕ
  j = 80 * (t + 31) / 2447

  pub civil_steps :
      (J : ℕ)
      → J + 68569 ≡ l
      → 4 * l / 146097 ≡ n
      → l - (146097 * n + 3) / 4 ≡ l1
      → (146097 * n + 3) / 4 ≤ l
      → 4000 * (l1 + 1) / 1461001 ≡ i
      → l1 - 1461 * i / 4 ≡ t
      → 1461 * i / 4 ≤ l1
      → 49 ≤ n
      → 12 * (j / 11) ≤ j + 2
      → 2447 * j / 80 ≤ t + 31
      → l < 2 ^ 31
      → i ≤ 99
      → t ≤ 365
      → civil (pos J)
        ≡ some (record {
          year = pos (100 * (n - 49) + i + j / 11);
          month = pos (month_of t);
          day = pos (day_of t);
        })
  unfolding civil
  civil_steps J el en el1 hl ei et ht hn hm hd small hi h365 =
      rw
        (
          pos-add J 68569,
          el,
          pos-mul 4 l,
          pos-div (4 * l) 146097,
          en,
          int_of-pos n (omega arith),
          ◌>>=◌,
          pos-mul 146097 n,
          pos-add (146097 * n) 3,
          pos-div (146097 * n + 3) 4,
          int_of-pos ((146097 * n + 3) / 4) (omega arith),
          ◌>>=◌,
          pos-sub l ((146097 * n + 3) / 4) hl,
          el1,
          pos-add l1 1,
          pos-mul 4000 (l1 + 1),
          pos-div (4000 * (l1 + 1)) 1461001,
          ei,
          int_of-pos i (omega arith),
          ◌>>=◌,
        )
        (rw
          (
            pos-mul 1461 i,
            pos-div (1461 * i) 4,
            int_of-pos (1461 * i / 4) (omega arith),
            ◌>>=◌,
            pos-sub l1 (1461 * i / 4) ht,
            et,
            pos-add t 31,
            pos-mul 80 (t + 31),
            pos-div (80 * (t + 31)) 2447,
            int_of-pos j (omega arith),
            ◌>>=◌,
            pos-mul 2447 j,
            pos-div (2447 * j) 80,
            int_of-pos (2447 * j / 80) (omega arith),
            ◌>>=◌,
            pos-div j 11,
            int_of-pos (j / 11) (omega arith),
            ◌>>=◌,
          )
          (rw
            (
              pos-sub n 49 hn,
              pos-mul 100 (n - 49),
              pos-add (100 * (n - 49)) i,
              pos-add (100 * (n - 49) + i) (j / 11),
              int_of-pos (100 * (n - 49) + i + j / 11) (omega arith),
              ◌>>=◌,
              pos-add j 2,
              pos-mul 12 (j / 11),
              pos-sub (j + 2) (12 * (j / 11)) hm,
              int_of-pos (month_of t) (omega arith),
              ◌>>=◌,
              pos-sub (t + 31) (2447 * j / 80) hd,
              int_of-pos (day_of t) (omega arith),
              ◌>>=◌,
            )
            refl))

pub month_bounds :
    (t : ℕ)
    → t ≤ 365
    → (12 * (80 * (t + 31) / 2447 / 11) ≤ 80 * (t + 31) / 2447 + 2)
      × (2447 * (80 * (t + 31) / 2447) / 80 ≤ t + 31)
month_bounds t h = omega arith
