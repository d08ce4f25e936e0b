-- ===== src/Hex.antt =====
-- corelib/string.cpp, the functions of String between bytes and text in base sixteen. `isspace` and
-- `toupper` are those of the C locale.
pub mod Trips
pub mod Formats
pub mod Packs
mod Examples
use Prim.Native.Nat.{bit_or}
use commoncpp.Common.{
  ℕ, zero, suc, ◌+◌, ◌-◌, ◌*◌, ◌/◌, ◌%◌, Bool, true, false, not, ◌&&◌, ◌||◌, List, [], ◌∷◌, Option,
  none, some, ltb, leb, ◌==◌, if◌then◌else◌, ◌>>=◌,
}

unfoldable pub is_space : ℕ → Bool
is_space c = (c == 0x20) || (leb 9 c && leb c 13)

unfoldable pub to_upper : ℕ → ℕ
to_upper c = if leb 0x61 c && leb c 0x7a then c - 32 else c

-- `none` is -1.
unfoldable pub hexcode : ℕ → Option ℕ
unfolding to_upper
hexcode ch =
    let c : ℕ = to_upper ch in
    if leb 0x30 c && leb c 0x39
    then some (c - 0x30)
    else if leb 0x41 c && leb c 0x46
    then some (c - 0x41 + 10)
    else none

-- The byte of two chars, if both are digits.
unfoldable pub byte_of : ℕ → ℕ → Option ℕ
unfolding hexcode
byte_of c d = do hi ← hexcode c; lo ← hexcode d; some (bit_or (hi * 16) lo % 256)

-- The loop of `hexcount`: a text that ends after one char has the terminator behind it.
unfoldable pub hexcount_from : Bool → List ℕ → ℕ → ℕ
hexcount_from ws [] count = count
hexcount_from ws (c ∷ []) count = count
hexcount_from ws (c ∷ d ∷ cs) count =
    let skipped = hexcount_from ws (d ∷ cs) count in
    let rest = hexcount_from ws cs (count + 1) in
    if ws && is_space c then skipped else elim (byte_of c d) [ none ↦ count | some b ↦ rest ]

unfoldable pub hexcount : List ℕ → Bool → ℕ
unfolding hexcount_from
hexcount str ws = hexcount_from ws str 0

-- The chars of "%02x".
abbrev pub digit : ℕ → ℕ
digit n = if ltb n 10 then 0x30 + n else 0x61 + (n - 10)

unfoldable pub hex : List ℕ → List ℕ
hex [] = []
hex (b ∷ bs) = digit (b / 16) ∷ digit (b % 16) ∷ hex bs

-- The loop of `hex2bin`: the count of chars, and the bytes that are written to `bin`.
abbrev pub wrote : ℕ → ℕ × List ℕ → ℕ × List ℕ
wrote b (count, bs) = (count, b ∷ bs)

unfoldable pub hex2bin_from : Bool → ℕ → List ℕ → ℕ → ℕ → ℕ × List ℕ
hex2bin_from ws max [] count out = (count, [])
hex2bin_from ws max (c ∷ []) count out = if ws && is_space c then (count + 1, []) else (count, [])
hex2bin_from ws max (c ∷ d ∷ cs) count out =
    let skipped = hex2bin_from ws max (d ∷ cs) (count + 1) out in
    let rest = hex2bin_from ws max cs (count + 2) (out + 1) in
    if ws && is_space c then skipped else elim (byte_of c d) [
      | none ↦ (count, [])
      | some b ↦ wrote b (if ltb max (out + 1) then (count + 2, []) else rest)
    ]

unfoldable pub hex2bin : List ℕ → ℕ → Bool → ℕ × List ℕ
unfolding hex2bin_from
hex2bin str max ws = hex2bin_from ws max str 0 0
