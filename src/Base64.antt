-- ===== src/Base64.antt =====
-- corelib/string.cpp, base64: `b64encode` and `b64decode` of String. A text is the list of its
-- chars, without the terminator; `isspace` is that of Hex.
pub mod Letters
pub mod Groups
pub mod Trips
pub mod Sizes
mod Examples
use Prim.Native.Nat.{bit_and, bit_or}
use commoncpp.Common.{
  ℕ, zero, suc, ◌+◌, ◌-◌, ◌*◌, ◌/◌, ◌%◌, Bool, true, false, List, [], ◌∷◌, ◌++◌, Option, none, some,
  ltb, leb, ◌==◌, if◌then◌else◌, length, get_or, set, replicate,
}
use commoncpp.Hex.{is_space}

-- "ABC...XYZabc...xyz0123456789+/".
abbrev range : ℕ → ℕ → List ℕ
range c zero = []
range c (suc n) = c ∷ range (c + 1) n

abbrev pub alphabet : List ℕ
alphabet = range 0x41 26 ++ (range 0x61 26 ++ (range 0x30 10 ++ (0x2b ∷ 0x2f ∷ [])))

unfoldable pub letter : ℕ → ℕ
letter i = get_or alphabet i 0

unfoldable pub b64size : ℕ → ℕ
b64size size = size * 4 / 3 + 4

-- The chars of three bytes, and of the one or two that are left.
abbrev pub bits_of : ℕ → ℕ → ℕ → ℕ
bits_of a b c = bit_or (bit_or (a * 0x10000) (b * 0x100)) c

unfoldable pub four : ℕ → List ℕ
four bits =
    letter (bits / 0x40000)
    ∷ letter (bit_and (bits / 0x1000) 0x3f)
    ∷ letter (bit_and (bits / 0x40) 0x3f)
    ∷ letter (bit_and bits 0x3f)
    ∷ []

unfoldable pub tail_one : ℕ → List ℕ
tail_one bits = letter (bits / 0x40000) ∷ letter (bit_and (bits / 0x1000) 0x3f) ∷ 0x3d ∷ 0x3d ∷ []

unfoldable pub tail_two : ℕ → ℕ → List ℕ
tail_two a b =
    let bits : ℕ = bit_or (a * 0x10000) (b * 0x100) in
    letter (a * 0x10000 / 0x40000)
    ∷ letter (bit_and (bits / 0x1000) 0x3f)
    ∷ letter (bit_and (bits / 0x40) 0x3f)
    ∷ 0x3d
    ∷ []

-- The chars that are written, the terminator included, and the count of bytes that they stand for.
abbrev pub behind : List ℕ → ℕ → List ℕ × ℕ → List ℕ × ℕ
behind chars n (out, count) = (chars ++ out, count + n)

unfoldable pub encode_from : List ℕ → ℕ → List ℕ × ℕ
encode_from [] dsize = (0 ∷ [], 0)
encode_from (a ∷ []) dsize =
    if ltb 4 dsize then (tail_one (a * 0x10000) ++ (0 ∷ []), 1) else (0 ∷ [], 0)
encode_from (a ∷ b ∷ []) dsize = if ltb 4 dsize then (tail_two a b ++ (0 ∷ []), 2) else (0 ∷ [], 0)
encode_from (a ∷ b ∷ c ∷ bin) dsize =
    let rest = encode_from bin (dsize - 4) in
    if ltb 4 dsize then behind (four (bits_of a b c)) 3 rest else (0 ∷ [], 0)

abbrev pub width : List ℕ → ℕ → ℕ
width bin dsize = if dsize == 0 then b64size (length bin) else dsize

unfoldable pub b64encode : List ℕ → ℕ → List ℕ × ℕ
b64encode bin dsize = encode_from bin (width bin dsize)

-- The table that both readers fill.
abbrev fill : List ℕ → ℕ → List ℕ → List ℕ
fill [] i decoder = decoder
fill (c ∷ cs) i decoder = fill cs (i + 1) (set decoder c i)

unfoldable pub decode : ℕ → ℕ
decode c = get_or (fill alphabet 0 (replicate 256 64)) c 64

-- A round of the loop of `b64count`: it ends, skips a char, or has new bits and more bytes.
pub data Round : Type 0 where
  ends : Round
  skips : Round
  adds : ℕ → ℕ → Round

unfoldable pub count_round : Bool → ℕ → ℕ → Round
count_round ws c bits =
    let next : ℕ = bits * 0x40 + decode c in
    if is_space c
    then if ws then skips else ends
    else if c == 0x3d
    then ends
    else if decode c == 64
    then ends
    else if bit_and next 0x1000000 == 0
    then adds next 0
    else adds 1 3

abbrev pub last_count : ℕ → ℕ
last_count bits = if bit_and bits 0x40000 == 0 then if bit_and bits 0x1000 == 0 then 0 else 1 else 2

unfoldable pub count_from : Bool → List ℕ → ℕ → ℕ → ℕ
count_from ws [] bits count = count + last_count bits
count_from ws (c ∷ src) bits count = elim (count_round ws c bits) [
  | ends ↦ count + last_count bits
  | skips ↦ count_from ws src bits count
  | adds next n ↦ count_from ws src next (count + n)
]

unfoldable pub b64count : List ℕ → Bool → ℕ
b64count src ws = count_from ws src 1 0

-- A round of the loop of `b64decode`: it ends with a number of chars more, with its bits; it skips a
-- char; or it has new bits, the size left, and bytes that are written.
pub data Step : Type 0 where
  stops : ℕ → ℕ → Step
  passes : Step
  takes : ℕ → ℕ → List ℕ → Step

abbrev pub three : ℕ → List ℕ
three bits = bits / 0x10000 % 0x100 ∷ bits / 0x100 % 0x100 ∷ bits % 0x100 ∷ []

unfoldable pub decode_round : Bool → ℕ → ℕ → ℕ → ℕ → Step
decode_round ws c after bits size =
    let next : ℕ = bits * 0x40 + decode c in
    if is_space c
    then if ws then passes else stops 0 bits
    else if c == 0x3d
    then stops (if after == 0x3d then 2 else 1) bits
    else if decode c == 64
    then stops 0 bits
    else if bit_and next 0x1000000 == 0
    then takes next size []
    else if ltb size 3
    then stops 1 1
    else takes 1 (size - 3) (three next)

-- What is written behind the loop.
unfoldable pub last_bytes : ℕ → ℕ → List ℕ
last_bytes bits size =
    if bit_and bits 0x40000 == 0
    then if bit_and bits 0x1000 == 0 then [] else if size == 0 then [] else bits / 0x10 % 0x100 ∷ []
    else if ltb size 2
    then []
    else bits / 0x400 % 0x100 ∷ bits / 4 % 0x100 ∷ []

abbrev pub written : List ℕ → ℕ × List ℕ → ℕ × List ℕ
written bytes (count, out) = (count, bytes ++ out)

-- The count of chars, and the bytes that are written to `dest`.
unfoldable pub decode_from : Bool → List ℕ → ℕ → ℕ → ℕ → ℕ × List ℕ
decode_from ws [] bits size count = (count, last_bytes bits size)
decode_from ws (c ∷ src) bits size count = elim (decode_round ws c (get_or src 0 0) bits size) [
  | stops n left ↦ (count + n, last_bytes left size)
  | passes ↦ decode_from ws src bits size (count + 1)
  | takes next left bytes ↦ written bytes (decode_from ws src next left (count + 1))
]

unfoldable pub b64decode : List ℕ → ℕ → Bool → ℕ × List ℕ
b64decode src size ws = decode_from ws src 1 size 0
