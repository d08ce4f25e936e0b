-- ===== src/Hex/Packs.antt =====
-- What `hexdump` writes by a format `hexpack` reads by it.
use commoncpp.Common.{
  ℕ, zero, suc, ◌+◌, ◌*◌, ◌/◌, ◌%◌, ◌≤◌, ◌<◌, ◌≡◌, refl, sym, ap, arith, Bool, true, List, [], ◌∷◌,
  ◌++◌, ◌==◌, if◌then◌else◌, drop, length, length-drop, inl, inr, Bool-cases,
}
use commoncpp.Common.Bits.{everywhere, everywhere-below}
use commoncpp.Hex.{to_upper, hexcode, digit}
use commoncpp.Hex.Trips.{AreBytes, firsts}
use commoncpp.Hex.Formats.{
  is_digit, run_length, skip_of, chars_of, behind, hexsize_from, hexsize, dump_bytes, hexdump_from,
  hexdump, code, pack_bytes, hexpack_from, hexpack,
}

is_code : ℕ → Bool
is_code n = code (digit n) == n

all_codes : everywhere 16 is_code ≡ true
unfolding is_code code hexcode to_upper everywhere
all_codes = refl

code-digit : (n : ℕ) → n < 16 → code (digit n) ≡ n
unfolding is_code
code-digit n l = let e = everywhere-below 16 is_code n all_codes l in ground (arith, e)

AreBytes-drop : (n : ℕ) (bs : List ℕ) → AreBytes bs → AreBytes (drop n bs)
AreBytes-drop zero bs v = v
AreBytes-drop (suc n) [] v = tt
AreBytes-drop (suc n) (b ∷ bs) (l, v) = AreBytes-drop n bs v

firsts-split : (m n : ℕ) (bs : List ℕ) → firsts (m + n) bs ≡ firsts m bs ++ firsts n (drop m bs)
firsts-split zero n bs = let e : 0 + n ≡ n = omega arith in rw e refl
firsts-split (suc m) n [] = let e : suc m + n ≡ suc (m + n) = omega arith in rw e (none_left n)
  where
    none_left : (n : ℕ) → [] ≡ [] ++ firsts n []
    none_left zero = refl
    none_left (suc n) = refl
firsts-split (suc m) n (b ∷ bs) =
    let e : suc m + n ≡ suc (m + n) = omega arith in rw e (ap (λ t. b ∷ t) (firsts-split m n bs))

pack_bytes-dump_bytes :
    (n : ℕ) (bs text : List ℕ)
    → AreBytes bs
    → n ≤ length bs
    → (pack_bytes n ((dump_bytes n bs).0 ++ text) ≡ (firsts n bs, text))
      × ((dump_bytes n bs).1 ≡ drop n bs)
unfolding pack_bytes dump_bytes
pack_bytes-dump_bytes zero bs text v l = (refl, refl)
pack_bytes-dump_bytes (suc n) [] text v l = absurd (omega arith)
pack_bytes-dump_bytes (suc n) (b ∷ bs) text (s, v) l =
    let (ih, rest) = pack_bytes-dump_bytes n bs text v (omega arith) in
    let hi = code-digit (b / 16) (omega arith) in
    let lo = code-digit (b % 16) (omega arith) in
    let byte : (b / 16 * 16 + b % 16) % 256 ≡ b = omega arith in (rw (hi, lo, byte, ih) refl, rest)

-- The bytes that a format asks for.
unfoldable pub bytes_of : ℕ → List ℕ → ℕ
bytes_of skipped [] = 0
bytes_of (suc skipped) (c ∷ cs) = bytes_of skipped cs
bytes_of zero (c ∷ cs) = (if is_digit c then skip_of (c ∷ cs) else 0) + bytes_of (behind c cs) cs

hexpack_from-hexdump_from :
    (skipped : ℕ) (format bs : List ℕ) (count : ℕ)
    → AreBytes bs
    → bytes_of skipped format ≤ length bs
    → (hexpack_from skipped format (hexdump_from skipped format bs count).1 count
        ≡ ((hexdump_from skipped format bs count).0, firsts (bytes_of skipped format) bs))
      × ((hexdump_from skipped format bs count).0 ≡ hexsize_from skipped format count)
unfolding hexpack_from hexdump_from hexsize_from bytes_of
hexpack_from-hexdump_from skipped [] bs count v l = (refl, refl)
hexpack_from-hexdump_from (suc skipped) (c ∷ cs) bs count v l =
    hexpack_from-hexdump_from skipped cs bs count v l
hexpack_from-hexdump_from zero (c ∷ cs) bs count v l = elim (Bool-cases (is_digit c)) [
  | inl e ↦
      let n : ℕ = skip_of (c ∷ cs) in
      let run : ℕ = run_length cs in
      let m : ℕ = bytes_of run cs in
      let k : ℕ = count + chars_of n in
      let t : List ℕ = (hexdump_from run cs (drop n bs) k).1 in
      let total : bytes_of 0 (c ∷ cs) ≡ n + m = rw e refl in
      let (ih, size) =
        hexpack_from-hexdump_from run cs (drop n bs) k (AreBytes-drop n bs v)
          (omega (arith, l, total, length-drop n bs)) in
      let (packs, rest) = pack_bytes-dump_bytes n bs t v (omega (arith, l, total)) in
      rw (e, rest, packs, ih)
        (ap (λ b. ((hexdump_from run cs (drop n bs) k).0, b)) (sym (firsts-split n m bs)), size)
  | inr e ↦
      let total : bytes_of 0 (c ∷ cs) ≡ bytes_of 0 cs = rw e (omega arith) in
      let (ih, size) = hexpack_from-hexdump_from 0 cs bs (count + 1) v (omega (arith, l, total)) in
      let y : (c == c) ≡ true = ground arith in
      let z : 0 + bytes_of 0 cs ≡ bytes_of 0 cs = omega arith in rw (e, y, ih, z) (refl, size)
]

-- Of bytes that `String::hexdump` writes by a format that asks for no more of them than there are,
-- `hexpack` by the same format reads back those that it asks for, and both return the count that
-- `hexsize` gives for it.
pub hexpack-hexdump :
    (binary format : List ℕ)
    → AreBytes binary
    → bytes_of 0 format ≤ length binary
    → (hexpack (hexdump binary format).1 format
        ≡ ((hexdump binary format).0, firsts (bytes_of 0 format) binary))
      × ((hexdump binary format).0 ≡ hexsize format)
unfolding hexpack hexdump hexsize
hexpack-hexdump binary format v l = hexpack_from-hexdump_from 0 format binary 0 v l
