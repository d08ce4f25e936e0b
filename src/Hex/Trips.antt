-- ===== src/Hex/Trips.antt =====
-- Bytes that are written in base sixteen and read back.
use commoncpp.Common.{
  ℕ, zero, suc, ◌+◌, ◌*◌, ◌/◌, ◌%◌, ◌<◌, ◌≡◌, refl, ap, ◌∙◌, arith, Bool, true, false, not, ◌&&◌,
  List, [], ◌∷◌, Option, none, some, ltb, ◌==◌, length,
}
use commoncpp.Common.Bits.{everywhere, everywhere-below}
use commoncpp.Hex.{
  is_space, byte_of, hexcode, to_upper, digit, hexcount_from, hexcount, hex, wrote, hex2bin_from,
  hex2bin,
}

abbrev pub AreBytes : List ℕ → Type 0
AreBytes [] = Unit {0}
AreBytes (b ∷ bs) = (b < 256) × AreBytes bs

-- The first n of a list, or all of it.
abbrev pub firsts : ℕ → List ℕ → List ℕ
firsts zero bs = []
firsts (suc n) [] = []
firsts (suc n) (b ∷ bs) = b ∷ firsts n bs

abbrev is_some : ℕ → Option ℕ → Bool
is_some b none = false
is_some b (some c) = c == b

good : ℕ → Bool
good b = not (is_space (digit (b / 16))) && is_some b (byte_of (digit (b / 16)) (digit (b % 16)))

all_good : everywhere 256 good ≡ true
unfolding good is_space byte_of everywhere hexcode to_upper
all_good = refl

byte-digits :
    (b : ℕ)
    → b < 256
    → (is_space (digit (b / 16)) ≡ false) × (byte_of (digit (b / 16)) (digit (b % 16)) ≡ some b)
unfolding good
byte-digits b l =
    split (is_space (digit (b / 16))) (byte_of (digit (b / 16)) (digit (b % 16)))
      (everywhere-below 256 good b all_good l)
  where
    split : (s : Bool) (o : Option ℕ) → (not s && is_some b o) ≡ true → (s ≡ false) × (o ≡ some b)
    split true o e = cc
    split false none e = cc
    split false (some c) e = (refl, ap some (ground (arith, e)))

no_space : (ws : Bool) (b : ℕ) → b < 256 → (ws && is_space (digit (b / 16))) ≡ false
no_space false b l = refl
no_space true b l = (byte-digits b l).0

hexcount_from-hex :
    (ws : Bool) (bs : List ℕ) (count : ℕ)
    → AreBytes bs
    → hexcount_from ws (hex bs) count ≡ count + length bs
unfolding hexcount_from hex
hexcount_from-hex ws [] count v = ground arith
hexcount_from-hex ws (b ∷ bs) count (l, v) =
    let n = no_space ws b l in
    let e = (byte-digits b l).1 in rw (n, e) (hexcount_from-hex ws bs (count + 1) v ∙ omega arith)

hex2bin_from-hex :
    (ws : Bool) (max k : ℕ) (bs : List ℕ) (count out : ℕ)
    → AreBytes bs
    → out + k ≡ max
    → hex2bin_from ws max (hex bs) count out
      ≡ (count + 2 * length (firsts (suc k) bs), firsts (suc k) bs)
unfolding hex2bin_from hex
hex2bin_from-hex ws max k [] count out v m =
    let z : count ≡ count + 2 * 0 = omega arith in ap (λ c. (c, [])) z
hex2bin_from-hex ws max zero (b ∷ bs) count out (l, v) m =
    let n = no_space ws b l in
    let e = (byte-digits b l).1 in
    let f : ltb max (out + 1) ≡ true = ground (arith, m) in
    let z : count + 2 ≡ count + 2 * 1 = omega arith in rw (n, e, f) (ap (λ c. (c, b ∷ [])) z)
hex2bin_from-hex ws max (suc k) (b ∷ bs) count out (l, v) m =
    let n = no_space ws b l in
    let e = (byte-digits b l).1 in
    let f : ltb max (out + 1) ≡ false = ground (arith, m) in
    let bytes : List ℕ = firsts (suc k) bs in
    let z : count + 2 + 2 * length bytes ≡ count + 2 * length (b ∷ bytes) = omega arith in
    let i = hex2bin_from-hex ws max k bs (count + 2) (out + 1) v (omega arith) in
    rw (n, e, f) (ap (wrote b) i ∙ ap (λ c. (c, b ∷ bytes)) z)

-- Of bytes that `String::hex` writes in base sixteen, `hex2bin` reads back and writes one more than
-- max, or all if there are no more, and returns the number of the chars that it read; `hexcount` is
-- the number of all the bytes.
pub hex2bin-hex :
    (bs : List ℕ) (max : ℕ) (ws : Bool)
    → AreBytes bs
    → (hex2bin (hex bs) max ws ≡ (2 * length (firsts (suc max) bs), firsts (suc max) bs))
      × (hexcount (hex bs) ws ≡ length bs)
unfolding hex2bin hexcount
hex2bin-hex bs max ws v = (
  hex2bin_from-hex ws max max bs 0 0 v (omega arith)
      ∙ ap (λ c. (c, firsts (suc max) bs)) (omega arith),
  hexcount_from-hex ws bs 0 v ∙ omega arith,
)
