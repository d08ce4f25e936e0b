-- ===== src/DateTime/Laws.antt =====
-- Arithmetic and order of DateTime.
use commoncpp.Common.{ℕ, ◌+◌, ◌-◌, ◌*◌, ◌/◌, ◌%◌, ◌<◌, ◌≡◌, ◌↔◌, arith, true, refl, sym, ap, ◌∙◌}
use commoncpp.Common.Int.{pos, ◌+ℤ◌, ◌-ℤ◌, ◌*ℤ◌, ◌/ℤ◌, ◌%ℤ◌, abs}
use commoncpp.Time.{c_day}
use commoncpp.Time
use commoncpp.DateTime.{DateTime, update, add_assign, sub_assign, difference, datetime_lt}

-- Second `s` of day `j`.
abbrev pub at_moment : ℕ → ℕ → DateTime
at_moment j s = record { date = record { julian = pos j }; time = record { seconds = pos s } }

-- `operator+=` with a number of seconds of at least 0 moves the date on by the days that the sum
-- fills and leaves the rest as the time of day.
pub add_assign-carry :
    (j s v : ℕ)
    → add_assign (at_moment j s) (pos v) ≡ at_moment (j + (s + v) / c_day) ((s + v) % c_day)
unfolding add_assign update Time.update abs ◌+ℤ◌ ◌/ℤ◌ ◌%ℤ◌
add_assign-carry j s v = ground arith

-- `operator+=` with two numbers of seconds of at least 0, one after the other, gives the moment
-- that it gives with their sum, and `operator-` of that moment and the first is the sum, whatever
-- the time of day was.
pub difference-add_assign :
    (j s v w : ℕ)
    → let t = add_assign (add_assign (at_moment j s) (pos v)) (pos w) in
      (t ≡ add_assign (at_moment j s) (pos (v + w))) × (difference t (at_moment j s) ≡ pos (v + w))
unfolding difference ◌+ℤ◌ ◌-ℤ◌ ◌*ℤ◌
difference-add_assign j s v w =
    let q : ℕ = (s + v) / c_day in
    let days : j + q + ((s + v) % c_day + w) / c_day ≡ j + (s + (v + w)) / c_day = omega arith in
    let rest : ((s + v) % c_day + w) % c_day ≡ (s + (v + w)) % c_day = omega arith in
    let moved : add_assign (add_assign (at_moment j s) (pos v)) (pos w)
        ≡ at_moment (j + (s + (v + w)) / c_day) ((s + (v + w)) % c_day) =
      ap (λ m. add_assign m (pos w)) (add_assign-carry j s v)
      ∙ (add_assign-carry (j + q) ((s + v) % c_day) w ∙ rw (days, rest) refl) in
    (moved ∙ sym (add_assign-carry j s (v + w)), rw moved (ground arith))

-- `operator-=` by more seconds than the time of day has, and by less than a day more, keeps the
-- date and takes the time as far past midnight as it should be before it.
pub sub_assign-past_midnight :
    (j s v : ℕ) → s < v → v - s < c_day → sub_assign (at_moment j s) (pos v) ≡ at_moment j (v - s)
unfolding sub_assign update Time.update abs ◌+ℤ◌ ◌-ℤ◌ ◌/ℤ◌ ◌%ℤ◌
sub_assign-past_midnight j s v h hv = ground arith

-- `operator<` of two moments, each with a second of the day, is the order of their seconds on one
-- time line.
pub datetime_lt-lt :
    (i s j t : ℕ)
    → s < c_day
    → t < c_day
    → (datetime_lt (at_moment i s) (at_moment j t) ≡ true) ↔ (i * c_day + s < j * c_day + t)
unfolding datetime_lt
datetime_lt-lt i s j t hs ht = ground arith
