-- ===== src/Hex/Formats.antt =====
-- corelib/string.cpp, the functions of String that go by a format: chars that stand for themselves, and
-- numbers of bytes in base sixteen. `format = ep` behind a number skips its other digits one by one.
-- A `long` has 64 bits: strtol gives the largest for a number that none holds. A text is without its
-- terminator.
use commoncpp.Common.{
  ℕ, zero, suc, ◌+◌, ◌-◌, ◌*◌, ◌/◌, ◌%◌, ◌^◌, Bool, not, ◌&&◌, List, [], ◌∷◌, ◌++◌, none, some, leb,
  ltb, ◌==◌, if◌then◌else◌, get_or, drop,
}
use commoncpp.Hex.{hexcode, digit}

abbrev pub is_digit : ℕ → Bool
is_digit c = leb 0x30 c && leb c 0x39

-- The value of the digits that a text begins with, what strtol gives for them, and their number.
unfoldable pub digits_value : List ℕ → ℕ → ℕ
digits_value [] value = value
digits_value (c ∷ cs) value =
    let rest = digits_value cs (value * 10 + (c - 0x30)) in if is_digit c then rest else value

abbrev pub long_max : ℕ
long_max = 0x7fffffffffffffff

unfoldable pub strtol : List ℕ → ℕ
unfolding digits_value
strtol format = let value = digits_value format 0 in if ltb long_max value then long_max else value

unfoldable pub run_length : List ℕ → ℕ
run_length [] = 0
run_length (c ∷ cs) = let rest = run_length cs in if is_digit c then suc rest else 0

-- `skip`, an unsigned, and what it adds to the count.
abbrev pub skip_of : List ℕ → ℕ
skip_of format = strtol format % 2 ^ 32

abbrev pub chars_of : ℕ → ℕ
chars_of skip = skip * 2 % 2 ^ 32

abbrev pub counted : ℕ → List ℕ → ℕ → ℕ
counted c cs count = if is_digit c then count + chars_of (skip_of (c ∷ cs)) else count + 1

abbrev pub behind : ℕ → List ℕ → ℕ
behind c cs = if is_digit c then run_length cs else 0

unfoldable pub hexsize_from : ℕ → List ℕ → ℕ → ℕ
hexsize_from skipped [] count = count
hexsize_from (suc skipped) (c ∷ cs) count = hexsize_from skipped cs count
hexsize_from zero (c ∷ cs) count = hexsize_from (behind c cs) cs (counted c cs count)

unfoldable pub hexsize : List ℕ → ℕ
unfolding hexsize_from
hexsize format = hexsize_from 0 format 0

-- The chars of n bytes, and the bytes behind them.
unfoldable pub dump_bytes : ℕ → List ℕ → List ℕ × List ℕ
dump_bytes zero binary = ([], binary)
dump_bytes (suc n) [] = let (out, rest) = dump_bytes n [] in (digit 0 ∷ digit 0 ∷ out, rest)
dump_bytes (suc n) (b ∷ binary) =
    let (out, rest) = dump_bytes n binary in (digit (b / 16) ∷ digit (b % 16) ∷ out, rest)

abbrev pub dump_next : ℕ → List ℕ → List ℕ → List ℕ × List ℕ
dump_next c cs binary =
    if is_digit c then dump_bytes (skip_of (c ∷ cs)) binary else (c ∷ [], binary)

-- The count, and the text that is written.
abbrev pub in_front : List ℕ → ℕ × List ℕ → ℕ × List ℕ
in_front chars (count, out) = (count, chars ++ out)

unfoldable pub hexdump_from : ℕ → List ℕ → List ℕ → ℕ → ℕ × List ℕ
hexdump_from skipped [] binary count = (count, [])
hexdump_from (suc skipped) (c ∷ cs) binary count = hexdump_from skipped cs binary count
hexdump_from zero (c ∷ cs) binary count =
    let (chars, rest) = dump_next c cs binary in
    in_front chars (hexdump_from (behind c cs) cs rest (counted c cs count))

unfoldable pub hexdump : List ℕ → List ℕ → ℕ × List ℕ
unfolding hexdump_from
hexdump binary format = hexdump_from 0 format binary 0

-- A byte of two chars, of which one that is no digit counts as -1.
unfoldable pub code : ℕ → ℕ
code c = elim (hexcode c) [ none ↦ 255 | some n ↦ n ]

unfoldable pub pack_bytes : ℕ → List ℕ → List ℕ × List ℕ
pack_bytes zero string = ([], string)
pack_bytes (suc n) string =
    let (out, rest) = pack_bytes n (drop 2 string) in
    ((code (get_or string 0 0) * 16 + code (get_or string 1 0)) % 256 ∷ out, rest)

-- The count, and the bytes that are written.
unfoldable pub hexpack_from : ℕ → List ℕ → List ℕ → ℕ → ℕ × List ℕ
hexpack_from skipped [] string count = (count, [])
hexpack_from (suc skipped) (c ∷ cs) string count = hexpack_from skipped cs string count
hexpack_from zero (c ∷ cs) string count =
    let (bytes, rest) =
      if is_digit c then pack_bytes (skip_of (c ∷ cs)) string else ([], drop 1 string) in
    let out = in_front bytes (hexpack_from (behind c cs) cs rest (counted c cs count)) in
    if not (is_digit c) && not (get_or string 0 0 == c) then (count, []) else out

unfoldable pub hexpack : List ℕ → List ℕ → ℕ × List ℕ
unfolding hexpack_from
hexpack string format = hexpack_from 0 format string 0
