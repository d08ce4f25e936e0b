-- ===== src/Base64/Letters.antt =====
-- The letters of base64, and what the readers make of them.
use commoncpp.Common.{
  ℕ, ◌+◌, ◌-◌, ◌*◌, ◌≤◌, ◌<◌, ◌≡◌, refl, ap, arith, Bool, true, false, not, ◌&&◌, List, [], ◌∷◌,
  ltb, ◌==◌, get_or,
}
use commoncpp.Common.Bits.{bit_and-low, bit_and-high, everywhere, everywhere-below}
use commoncpp.Hex.{is_space}
use commoncpp.Base64.{
  letter, decode, adds, count_round, count_from, takes, three, decode_round, written, decode_from,
}

good : ℕ → Bool
good i = (decode (letter i) == i) && (not (is_space (letter i)) && not (letter i == 0x3d))

all_good : everywhere 64 good ≡ true
unfolding good decode letter is_space everywhere
all_good = refl

decode-letter :
    (i : ℕ)
    → i < 64
    → (decode (letter i) ≡ i)
      × (is_space (letter i) ≡ false)
      × ((letter i == 0x3d) ≡ false)
      × ((decode (letter i) == 64) ≡ false)
unfolding good
decode-letter i l =
    let g = everywhere-below 64 good i all_good l in
    let e : decode (letter i) ≡ i = ground (arith, g) in
    (e, ground (arith, g), ground (arith, g), ground (arith, e, l))

decode_round-letter :
    (ws : Bool) (i after bits size : ℕ)
    → i < 64
    → bits < 0x40000
    → decode_round ws (letter i) after bits size ≡ takes (bits * 0x40 + i) size []
unfolding decode_round
decode_round-letter ws i after bits size l m =
    let (e, s, q, k) = decode-letter i l in
    let low = bit_and-low 24 0x1000000 (bits * 0x40 + i) refl (omega arith) in
    rw (s, q, k, e, low) refl

decode_round-fourth :
    (ws : Bool) (i after bits size : ℕ)
    → i < 64
    → 0x40000 ≤ bits
    → bits < 0x80000
    → 3 ≤ size
    → decode_round ws (letter i) after bits size ≡ takes 1 (size - 3) (three (bits * 0x40 + i))
unfolding decode_round
decode_round-fourth ws i after bits size l m n r =
    let (e, s, q, k) = decode-letter i l in
    let high =
      bit_and-high 24 0x1000000 (bits * 0x40 + i) refl (omega arith) (omega arith) (omega arith) in
    let room : ltb size 3 ≡ false = ground arith in rw (s, q, k, e, high, room) refl

pub decode_from-letter :
    (ws : Bool) (i bits size count : ℕ) (src : List ℕ)
    → i < 64
    → bits < 0x40000
    → decode_from ws (letter i ∷ src) bits size count
      ≡ decode_from ws src (bits * 0x40 + i) size (count + 1)
unfolding decode_from
decode_from-letter ws i bits size count src l m =
    let e = decode_round-letter ws i (get_or src 0 0) bits size l m in rw (decode_from, e) refl

pub decode_from-fourth :
    (ws : Bool) (i bits size count : ℕ) (src : List ℕ)
    → i < 64
    → 0x40000 ≤ bits
    → bits < 0x80000
    → 3 ≤ size
    → decode_from ws (letter i ∷ src) bits size count
      ≡ written (three (bits * 0x40 + i)) (decode_from ws src 1 (size - 3) (count + 1))
unfolding decode_from
decode_from-fourth ws i bits size count src l m n r =
    let e = decode_round-fourth ws i (get_or src 0 0) bits size l m n r in rw (decode_from, e) refl

count_round-letter :
    (ws : Bool) (i bits : ℕ)
    → i < 64
    → bits < 0x40000
    → count_round ws (letter i) bits ≡ adds (bits * 0x40 + i) 0
unfolding count_round
count_round-letter ws i bits l m =
    let (e, s, q, k) = decode-letter i l in
    let low = bit_and-low 24 0x1000000 (bits * 0x40 + i) refl (omega arith) in
    rw (s, q, k, e, low) refl

count_round-fourth :
    (ws : Bool) (i bits : ℕ)
    → i < 64
    → 0x40000 ≤ bits
    → bits < 0x80000
    → count_round ws (letter i) bits ≡ adds 1 3
unfolding count_round
count_round-fourth ws i bits l m n =
    let (e, s, q, k) = decode-letter i l in
    let high =
      bit_and-high 24 0x1000000 (bits * 0x40 + i) refl (omega arith) (omega arith) (omega arith) in
    rw (s, q, k, e, high) refl

pub count_from-letter :
    (ws : Bool) (i bits count : ℕ) (src : List ℕ)
    → i < 64
    → bits < 0x40000
    → count_from ws (letter i ∷ src) bits count ≡ count_from ws src (bits * 0x40 + i) count
unfolding count_from
count_from-letter ws i bits count src l m =
    let e = count_round-letter ws i bits l m in
    let z : count + 0 ≡ count = omega arith in
    rw (count_from, e) (ap (count_from ws src (bits * 0x40 + i)) z)

pub count_from-fourth :
    (ws : Bool) (i bits count : ℕ) (src : List ℕ)
    → i < 64
    → 0x40000 ≤ bits
    → bits < 0x80000
    → count_from ws (letter i ∷ src) bits count ≡ count_from ws src 1 (count + 3)
unfolding count_from
count_from-fourth ws i bits count src l m n =
    let e = count_round-fourth ws i bits l m n in rw (count_from, e) refl
