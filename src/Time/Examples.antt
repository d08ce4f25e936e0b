-- ===== src/Time/Examples.antt =====
-- Tests of Time, and the theorems at times around midnight.
use commoncpp.Common.{◌≡◌, refl}
use commoncpp.Common.Int.{◌-ℤ◌, ◌%ℤ◌, abs}
use commoncpp.Time.{update, decrement}
use commoncpp.Time.Laws.{at_second}

-- One second before midnight is taken for one second past it.
midnight_mirrored : decrement (at_second 0) ≡ at_second 1
unfolding decrement update abs ◌-ℤ◌ ◌%ℤ◌
midnight_mirrored = refl
