-- ===== src/Base64/Groups.antt =====
-- Groups of four chars, and the last one, with its `=`.
use Prim.Native.Nat.{bit_or}
use commoncpp.Common.{
  ℕ, ◌+◌, ◌-◌, ◌*◌, ◌/◌, ◌%◌, ◌≤◌, ◌<◌, ◌≡◌, refl, ap, ap₂, ◌∙◌, arith, Bool, false, List, [], ◌∷◌,
  ◌++◌, ltb, ◌==◌,
}
use commoncpp.Common.Bits.{bit_and-low, bit_and-high, bit_and_six, bit_or-shift}
use commoncpp.Hex.{is_space}
use commoncpp.Base64.{
  letter, count_round, last_count, count_from, three, decode_round, last_bytes, written,
  decode_from, bits_of, four, tail_one, tail_two,
}
use commoncpp.Base64.Letters.{
  decode_from-letter, decode_from-fourth, count_from-letter, count_from-fourth,
}

pub bits_of-sum : (a b c : ℕ) → b < 256 → c < 256 → bits_of a b c ≡ a * 0x10000 + b * 0x100 + c
bits_of-sum a b c l m =
    let e : bit_or (a * 0x10000) (b * 0x100) ≡ a * 0x10000 + b * 0x100 =
      bit_or-shift 16 a (b * 0x100) (a * 0x10000) (omega arith) (omega arith) in
    let f : bit_or (a * 0x10000 + b * 0x100) c ≡ a * 0x10000 + b * 0x100 + c =
      bit_or-shift 8 (a * 0x100 + b) c (a * 0x10000 + b * 0x100) (omega arith) (omega arith) in
    rw e f

four-letters :
    (v : ℕ)
    → four v
      ≡ letter (v / 0x40000)
        ∷ letter (v / 0x1000 % 64)
        ∷ letter (v / 0x40 % 64)
        ∷ letter (v % 64)
        ∷ []
unfolding four
four-letters v =
    let e = bit_and_six (v / 0x1000) in
    let f = bit_and_six (v / 0x40) in let g = bit_and_six v in rw (e, f, g) refl

pub decode_from-four :
    (ws : Bool) (v size count : ℕ) (src : List ℕ)
    → v < 0x1000000
    → 3 ≤ size
    → decode_from ws (four v ++ src) 1 size count
      ≡ written (three (0x1000000 + v)) (decode_from ws src 1 (size - 3) (count + 4))
decode_from-four ws v size count src l r =
    let i : ℕ = v / 0x40000 in
    let j : ℕ = v / 0x1000 % 64 in
    let k : ℕ = v / 0x40 % 64 in
    let m : ℕ = v % 64 in
    let b2 : ℕ = 0x40 + i in
    let b3 : ℕ = b2 * 0x40 + j in
    let b4 : ℕ = b3 * 0x40 + k in
    let t3 : List ℕ = letter m ∷ src in
    let whole : b4 * 0x40 + m ≡ 0x1000000 + v = omega arith in
    let chars : count + 1 + 1 + 1 + 1 ≡ count + 4 = omega arith in
    ap (λ t. decode_from ws (t ++ src) 1 size count) (four-letters v)
    ∙ (decode_from-letter ws i 1 size count (letter j ∷ letter k ∷ t3) (omega arith) (omega arith)
        ∙ (decode_from-letter ws j b2 size (count + 1) (letter k ∷ t3) (omega arith) (omega arith)
            ∙ (decode_from-letter ws k b3 size (count + 1 + 1) t3 (omega arith) (omega arith)
                ∙ (decode_from-fourth ws m b4 size (count + 1 + 1 + 1) src (omega arith)
                      (omega arith) (omega arith) r
                    ∙ ap₂ (λ b n. written (three b) (decode_from ws src 1 (size - 3) n)) whole
                        chars))))

pub count_from-four :
    (ws : Bool) (v count : ℕ) (src : List ℕ)
    → v < 0x1000000
    → count_from ws (four v ++ src) 1 count ≡ count_from ws src 1 (count + 3)
count_from-four ws v count src l =
    let i : ℕ = v / 0x40000 in
    let j : ℕ = v / 0x1000 % 64 in
    let k : ℕ = v / 0x40 % 64 in
    let m : ℕ = v % 64 in
    let b2 : ℕ = 0x40 + i in
    let b3 : ℕ = b2 * 0x40 + j in
    let b4 : ℕ = b3 * 0x40 + k in
    let t3 : List ℕ = letter m ∷ src in
    ap (λ t. count_from ws (t ++ src) 1 count) (four-letters v)
    ∙ (count_from-letter ws i 1 count (letter j ∷ letter k ∷ t3) (omega arith) (omega arith)
        ∙ (count_from-letter ws j b2 count (letter k ∷ t3) (omega arith) (omega arith)
            ∙ (count_from-letter ws k b3 count t3 (omega arith) (omega arith)
                ∙ count_from-fourth ws m b4 count src (omega arith) (omega arith) (omega arith))))

-- An `=` ends both loops, and a second one is counted.
pads :
    (ws : Bool) (bits size count : ℕ)
    → (decode_from ws (0x3d ∷ []) bits size count ≡ (count + 1, last_bytes bits size))
      × (decode_from ws (0x3d ∷ 0x3d ∷ []) bits size count ≡ (count + 2, last_bytes bits size))
      × (count_from ws (0x3d ∷ []) bits count ≡ count + last_count bits)
      × (count_from ws (0x3d ∷ 0x3d ∷ []) bits count ≡ count + last_count bits)
unfolding decode_from decode_round count_from count_round is_space
pads ws bits size count = (refl, refl, refl, refl)

pub decode_from-one :
    (ws : Bool) (a size count : ℕ)
    → a < 256
    → 1 ≤ size
    → (decode_from ws (tail_one (a * 0x10000)) 1 size count ≡ (count + 4, a ∷ []))
      × (count_from ws (tail_one (a * 0x10000)) 1 count ≡ count + 1)
unfolding tail_one last_bytes
decode_from-one ws a size count l r =
    let i : ℕ = a * 0x10000 / 0x40000 in
    let j : ℕ = a * 0x10000 / 0x1000 % 64 in
    let e = bit_and_six (a * 0x10000 / 0x1000) in
    let b2 : ℕ = 0x40 + i in
    let b3 : ℕ = b2 * 0x40 + j in
    let low = bit_and-low 18 0x40000 b3 refl (omega arith) in
    let high = bit_and-high 12 0x1000 b3 refl (omega arith) (omega arith) (omega arith) in
    let room : (size == 0) ≡ false = ground arith in
    let byte : b3 / 0x10 % 0x100 ≡ a = omega arith in
    let (p, q, s, t) = pads ws b3 size (count + 1 + 1) in
    let (p', q', s', t') = pads ws b3 size count in
    let last : last_bytes b3 size ≡ a ∷ [] = rw (low, high, room, byte) refl in
    let n : count + 1 + 1 + 2 ≡ count + 4 = omega arith in
    let one : last_count b3 ≡ 1 = rw (low, high) refl in
    rw e (
      decode_from-letter ws i 1 size count (letter j ∷ 0x3d ∷ 0x3d ∷ []) (omega arith) (omega arith)
          ∙ (decode_from-letter ws j b2 size (count + 1) (0x3d ∷ 0x3d ∷ []) (omega arith)
                (omega arith)
              ∙ (q ∙ ap₂ (λ c o. (c, o)) n last)),
      count_from-letter ws i 1 count (letter j ∷ 0x3d ∷ 0x3d ∷ []) (omega arith) (omega arith)
          ∙ (count_from-letter ws j b2 count (0x3d ∷ 0x3d ∷ []) (omega arith) (omega arith)
              ∙ (t' ∙ ap (λ k. count + k) one)),
    )

pub decode_from-two :
    (ws : Bool) (a b size count : ℕ)
    → a < 256
    → b < 256
    → 2 ≤ size
    → (decode_from ws (tail_two a b) 1 size count ≡ (count + 4, a ∷ b ∷ []))
      × (count_from ws (tail_two a b) 1 count ≡ count + 2)
unfolding tail_two last_bytes
decode_from-two ws a b size count l m r =
    let v : ℕ = a * 0x10000 + b * 0x100 in
    let i : ℕ = a * 0x10000 / 0x40000 in
    let j : ℕ = v / 0x1000 % 64 in
    let k : ℕ = v / 0x40 % 64 in
    let sum : bit_or (a * 0x10000) (b * 0x100) ≡ v =
      bit_or-shift 16 a (b * 0x100) (a * 0x10000) (omega arith) (omega arith) in
    let e = bit_and_six (v / 0x1000) in
    let f = bit_and_six (v / 0x40) in
    let b2 : ℕ = 0x40 + i in
    let b3 : ℕ = b2 * 0x40 + j in
    let b4 : ℕ = b3 * 0x40 + k in
    let high = bit_and-high 18 0x40000 b4 refl (omega arith) (omega arith) (omega arith) in
    let room : ltb size 2 ≡ false = ground arith in
    let byte : b4 / 0x400 % 0x100 ≡ a = omega arith in
    let second : b4 / 4 % 0x100 ≡ b = omega arith in
    let (p, q, s, t) = pads ws b4 size (count + 1 + 1 + 1) in
    let (p', q', s', t') = pads ws b4 size count in
    let last : last_bytes b4 size ≡ a ∷ b ∷ [] = rw (high, room, byte, second) refl in
    let n : count + 1 + 1 + 1 + 1 ≡ count + 4 = omega arith in
    let two : last_count b4 ≡ 2 = rw high refl in
    rw (sum, e, f)
      (
        decode_from-letter ws i 1 size count (letter j ∷ letter k ∷ 0x3d ∷ []) (omega arith)
              (omega arith)
            ∙ (decode_from-letter ws j b2 size (count + 1) (letter k ∷ 0x3d ∷ []) (omega arith)
                  (omega arith)
                ∙ (decode_from-letter ws k b3 size (count + 1 + 1) (0x3d ∷ []) (omega arith)
                      (omega arith)
                    ∙ (p ∙ ap₂ (λ c o. (c, o)) n last))),
        count_from-letter ws i 1 count (letter j ∷ letter k ∷ 0x3d ∷ []) (omega arith) (omega arith)
            ∙ (count_from-letter ws j b2 count (letter k ∷ 0x3d ∷ []) (omega arith) (omega arith)
                ∙ (count_from-letter ws k b3 count (0x3d ∷ []) (omega arith) (omega arith)
                    ∙ (s' ∙ ap (λ c. count + c) two))),
      )
