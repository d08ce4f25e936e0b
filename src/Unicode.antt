-- ===== src/Unicode.antt =====
-- corelib/unicode.cpp, the functions of `utf8`. A string is the list of its bytes from where the
-- pointer points; its end is the terminator, and reads past it give the terminator again. A
-- `ucs4_t` is `none` for EOF, which is -1, and `some` of a code from 0 on.
pub mod Strings
pub mod Bytes
pub mod Joins
pub mod Codes
pub mod Texts
pub mod Packing
mod Examples
use Prim.Native.Nat.{bit_and, bit_or}
use commoncpp.Common.{
  ℕ, zero, suc, ◌+◌, ◌-◌, ◌*◌, ◌/◌, ◌%◌, ◌^◌, Bool, true, false, not, ◌&&◌, ◌||◌, List, [], ◌∷◌,
  ◌++◌, Option, none, some, ltb, leb, ◌==◌, if◌then◌else◌, ◌>>=◌, drop, length, set,
}

abbrev pub Text : Type 0
Text = List ℕ

abbrev pub first : Text → ℕ
first [] = 0
first (c ∷ s) = c

abbrev pub masked : ℕ → ℕ → ℕ → Bool
masked mask bits c = bit_and c mask == bits

-- The tests of `get` on the first byte: the bits of the code in it, and how many bytes follow.
unfoldable pub lead_bits : ℕ → Option (ℕ × ℕ)
lead_bits c =
    if masked 0xe0 0xc0 c
    then some (bit_and c 0x1f, 1)
    else if masked 0xf0 0xe0 c
    then some (bit_and c 0x0f, 2)
    else if masked 0xf8 0xf0 c
    then some (bit_and c 0x07, 3)
    else if masked 0xfc 0xf8 c
    then some (bit_and c 0x03, 4)
    else if masked 0xfe 0xfc c
    then some (bit_and c 0x01, 5)
    else none

-- The loop of `get` over the bytes that follow.
unfoldable pub follow : ℕ → Text → ℕ → Option ℕ
follow zero s code = some code
follow (suc count) s code =
    let rest = follow count (drop 1 s) (bit_or (code * 64) (bit_and (first s) 0x3f)) in
    if first s == 0 then none else if not (masked 0xc0 0x80 (first s)) then none else rest

unfoldable pub get : Text → Option ℕ
unfolding lead_bits follow
get s =
    if first s == 0
    then none
    else if ltb (first s) 0x80
    then some (first s)
    else lead_bits (first s) >>= λ (code, count). follow count (drop 1 s) code

unfoldable pub size_of_byte : ℕ → ℕ
size_of_byte v =
    if ltb v 0x80
    then 1
    else if masked 0xe0 0xc0 v
    then 2
    else if masked 0xf0 0xe0 v
    then 3
    else if masked 0xf8 0xf0 v
    then 4
    else if masked 0xfc 0xf8 v
    then 5
    else if masked 0xfe 0xfc v
    then 6
    else 0

abbrev pub size : Text → ℕ
size s = size_of_byte (first s)

-- The switch of `codepoint`.
abbrev pub head_bits : ℕ → ℕ → ℕ
head_bits codesize c =
    if codesize == 2
    then bit_and c 0x1f
    else if codesize == 3
    then bit_and c 0x0f
    else if codesize == 4
    then bit_and c 0x07
    else if codesize == 5
    then bit_and c 0x03
    else bit_and c 0x01

-- The loop of `codepoint`; a byte that does not continue the code makes it 0.
unfoldable pub join : ℕ → Text → ℕ → ℕ
join zero s code = code
join (suc count) s code =
    let rest = join count (drop 1 s) (bit_or (code * 64) (bit_and (first s) 0x3f)) in
    if not (masked 0xc0 0x80 (first s)) then 0 else rest

unfoldable pub codepoint : Text → Option ℕ
unfolding size_of_byte join
codepoint s =
    if first s == 0
    then some 0
    else if size s == 0
    then none
    else if size s == 1
    then some (first s)
    else some (join (size s - 1) (drop 1 s) (head_bits (size s) (first s)))

unfoldable pub chars : ℕ → ℕ
chars code =
    if leb code 0x80
    then 1
    else if leb code 0x7ff
    then 2
    else if leb code 0xffff
    then 3
    else if leb code 0x1fffff
    then 4
    else if leb code 0x3ffffff
    then 5
    else 6

-- A byte that follows, `(code >> k & 0x3f) | 0x80`, and the first, stored as chars.
abbrev pub tail_byte : ℕ → ℕ
tail_byte x = bit_or (bit_and x 0x3f) 0x80 % 256

abbrev pub lead_byte : ℕ → ℕ → ℕ
lead_byte x mark = bit_or x mark % 256

-- The bytes that `put` writes.
unfoldable pub put : ℕ → Text
put code =
    if ltb code 0x80
    then code ∷ []
    else if ltb code 0x7ff
    then lead_byte (code / 2 ^ 6) 0xc0 ∷ tail_byte code ∷ []
    else if leb code 0xffff
    then lead_byte (code / 2 ^ 12) 0xe0 ∷ tail_byte (code / 2 ^ 6) ∷ tail_byte code ∷ []
    else if leb code 0x1fffff
    then lead_byte (code / 2 ^ 18) 0xf0
      ∷ tail_byte (code / 2 ^ 12)
      ∷ tail_byte (code / 2 ^ 6)
      ∷ tail_byte code
      ∷ []
    else if leb code 0x3ffffff
    then lead_byte (code / 2 ^ 24) 0xf8
      ∷ tail_byte (code / 2 ^ 18)
      ∷ tail_byte (code / 2 ^ 12)
      ∷ tail_byte (code / 2 ^ 6)
      ∷ tail_byte code
      ∷ []
    else lead_byte (code / 2 ^ 30) 0xfc
      ∷ tail_byte (code / 2 ^ 24)
      ∷ tail_byte (code / 2 ^ 18)
      ∷ tail_byte (code / 2 ^ 12)
      ∷ tail_byte (code / 2 ^ 6)
      ∷ tail_byte code
      ∷ []
