-- ===== src/Unicode/Examples.antt =====
-- Tests of `utf8`, and the theorems at a text of codes of one, two, three and four bytes.
use commoncpp.Common.{ℕ, ◌+◌, ◌≡◌, ◌++◌, length, refl, arith, List, [], ◌∷◌, none, some, replicate}
use commoncpp.Unicode.{get, put, chars, codepoint, lead_bits, follow, size_of_byte, join}
use commoncpp.Unicode.Codes.{Reads, put-Reads}
use commoncpp.Unicode.Strings.{
  count_loop, count, advance, offset, offset_back, stuck, null, udup_loop, udup, wdup_loop, wdup,
  ccount_loop, ccount, find_loop, find, rfind_loop, rfind, pack_loop, pack, unpack,
}
use commoncpp.Unicode.Texts.{encode, AreCodes}
use commoncpp.Unicode.Packing.{AreCounted, Written, unpack-Written}

bytes : Unit {0}
unfolding get put chars codepoint lead_bits follow size_of_byte join count_loop count advance offset
    offset_back udup_loop udup wdup_loop wdup ccount_loop ccount find_loop find rfind_loop rfind
    pack_loop pack encode
bytes = tt

-- "aé€😀é"
abbrev word : List ℕ
word = 0x61 ∷ 0xe9 ∷ 0x20ac ∷ 0x1f600 ∷ 0xe9 ∷ []

runs :
    (encode word
      ≡ 0x61 ∷ 0xc3 ∷ 0xa9 ∷ 0xe2 ∷ 0x82 ∷ 0xac ∷ 0xf0 ∷ 0x9f ∷ 0x98 ∷ 0x80 ∷ 0xc3 ∷ 0xa9 ∷ [])
    × (get (0xe2 ∷ 0x82 ∷ []) ≡ none)
    × (codepoint (0xe2 ∷ 0x82 ∷ []) ≡ some 0)
    × (wdup (encode word) ≡ null)
    × (udup (0x61 ∷ 0xff ∷ []) ≡ stuck)
    × (find (encode word) 0xe9 0 ≡ some 1)
    × (find (encode word) 0x20ac 2 ≡ none)
    × (rfind (encode word) 0xe9 9 ≡ some 10)
    × (offset_back (encode word) 1 ≡ some 10)
    × (pack (encode (0x80 ∷ 0x61 ∷ [])) 9 ≡ 0x80 ∷ [])
unfolding bytes
runs = (refl, refl, refl, refl, refl, refl, refl, refl, refl, refl)

word-AreCodes : AreCodes word
unfolding AreCodes
word-AreCodes = (
  omega arith,
  omega arith,
  (
    omega arith,
    omega arith,
    (omega arith, omega arith, (omega arith, omega arith, (omega arith, omega arith, tt))),
  ),
)

word-AreCounted : AreCounted word
unfolding AreCounted
word-AreCounted = (
  λ e. omega arith,
  λ e. omega arith,
  (
    λ e. omega arith,
    λ e. omega arith,
    (
      λ e. omega arith,
      λ e. omega arith,
      (λ e. omega arith, λ e. omega arith, (λ e. omega arith, λ e. omega arith, tt)),
    ),
  ),
)

abbrev last_of_two : ℕ
last_of_two = 0x7ff

put-Reads_example : Reads 0x20ac (put 0x20ac) (0x61 ∷ [])
put-Reads_example = put-Reads 0x20ac (0x61 ∷ []) (omega arith) (omega arith)

-- The terminator comes behind 12 bytes, where the buffer has 7.
unpack-Written_example :
    Written 0 (encode word ++ (0 ∷ [])) (replicate 20 1) (unpack word 0 7 (replicate 20 1)).0
    × ((unpack word 0 7 (replicate 20 1)).1 ≡ 0 + length (encode word))
unfolding bytes
unpack-Written_example =
    unpack-Written word 0 7 (replicate 20 1) word-AreCodes word-AreCounted (omega arith)
      (omega arith)
