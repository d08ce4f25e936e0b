-- ===== src/Numbers/Examples.antt =====
-- Tests of Number and ZNumber, and the theorems at fields of a small buffer.
use commoncpp.Common.{◌≡◌, refl, some, ◌∷◌, [], arith}
use commoncpp.Common.Int.{pos, negsuc, ◌+ℤ◌}
use commoncpp.Numbers.{
  Buffer, number, get, number_set, znumber_set, set_digits, zset_digits, scale, put_trim,
  put_digits, blank, read_digits, add_assign, increment, decrement,
}
use commoncpp.Numbers.Padded.{field}
use commoncpp.Numbers.Blanks.{KeepsRest}
use commoncpp.Numbers.Signs.{get-number_set}

numbers : Unit {0}
unfolding number get number_set znumber_set set_digits zset_digits scale put_trim put_digits blank
    read_digits add_assign increment decrement ◌+ℤ◌
numbers = tt

-- "x12345y"
abbrev sample : Buffer
sample = b'x' ∷ b'1' ∷ b'2' ∷ b'3' ∷ b'4' ∷ b'5' ∷ b'y' ∷ []

-- "-3 "
abbrev minus_three : Buffer
minus_three = b'-' ∷ b'3' ∷ b' ' ∷ []

stores :
    (number_set (number 1 5) (negsuc 6) sample
      ≡ some (b'x' ∷ b'-' ∷ b'7' ∷ b' ' ∷ b' ' ∷ b' ' ∷ b'y' ∷ []))
    × (znumber_set (number 1 5) (pos 42) sample
        ≡ some (b'x' ∷ b'0' ∷ b'0' ∷ b'0' ∷ b'4' ∷ b'2' ∷ b'y' ∷ []))
    × (get (number 1 5) sample ≡ pos 12345)
    × (increment (number 0 3) (b'-' ∷ b'1' ∷ b' ' ∷ []) ≡ some (pos 0, b'-' ∷ b'1' ∷ b' ' ∷ []))
unfolding numbers
stores = (refl, refl, refl, refl)

get-number_set_example :
    (c : Buffer) × (number_set (field 1 4) (negsuc 41) sample ≡ some c)
    × (get (field 1 4) c ≡ negsuc 41)
    × KeepsRest 1 5 sample c
get-number_set_example = get-number_set 1 4 (negsuc 41) sample (λ e. cc) (omega arith) (omega arith)
