-- ===== src/Base64/Trips.antt =====
-- What `b64encode` writes is read back, as far as it was written.
use commoncpp.Common.{
  ℕ, suc, ◌+◌, ◌-◌, ◌*◌, ◌/◌, ◌%◌, ◌≤◌, ◌<◌, ◌≡◌, refl, sym, ap, ◌∙◌, arith, Bool, List, [], ◌∷◌,
  ◌++◌, ltb, length, inl, inr, Bool-cases,
}
use commoncpp.Hex.Trips.{AreBytes, firsts}
use commoncpp.Base64.{
  bits_of, four, tail_one, tail_two, behind, encode_from, width, b64encode, count_from, b64count,
  three, written, last_bytes, decode_from, b64decode,
}
use commoncpp.Base64.Groups.{
  bits_of-sum, decode_from-four, count_from-four, decode_from-one, decode_from-two,
}

-- A text, with its terminator, that the readers take for the first `count` of the bytes.
abbrev Reads : List ℕ → List ℕ × ℕ → Type 0
Reads bin (out, count) =
    (text : List ℕ) × (out ≡ text ++ (0 ∷ []))
    × ((ws : Bool) (size chars : ℕ)
        → count ≤ size
        → decode_from ws text 1 size chars ≡ (chars + length text, firsts count bin))
    × ((ws : Bool) (n : ℕ) → count_from ws text 1 n ≡ n + count)

nothing-Reads : (bin : List ℕ) → Reads bin (0 ∷ [], 0)
unfolding decode_from count_from last_bytes
nothing-Reads bin =
    ([], refl, λ ws size chars l. ap (λ c. (c, [])) (omega arith), λ ws n. omega arith)

firsts-group :
    (k a b c : ℕ) (bin : List ℕ) → firsts (k + 3) (a ∷ b ∷ c ∷ bin) ≡ a ∷ b ∷ c ∷ firsts k bin
firsts-group k a b c bin = let e : k + 3 ≡ suc (suc (suc k)) = omega arith in rw e refl

group-Reads :
    (a b c : ℕ) (bin : List ℕ) (coded : List ℕ × ℕ)
    → a < 256
    → b < 256
    → c < 256
    → Reads bin coded
    → Reads (a ∷ b ∷ c ∷ bin) (behind (four (bits_of a b c)) 3 coded)
unfolding four
group-Reads a b c bin (out, count) l m n (text, e, reads, counts) =
    let v : ℕ = bits_of a b c in
    let sum : v ≡ a * 0x10000 + b * 0x100 + c = bits_of-sum a b c m n in
    let low : v < 0x1000000 = omega (arith, sum) in
    let bytes : three (0x1000000 + v) ≡ a ∷ b ∷ c ∷ [] =
      let x : (0x1000000 + v) / 0x10000 % 0x100 ≡ a = omega (arith, sum) in
      let y : (0x1000000 + v) / 0x100 % 0x100 ≡ b = omega (arith, sum) in
      let z : (0x1000000 + v) % 0x100 ≡ c = omega (arith, sum) in cc (x, y, z) in
    (
      four v ++ text,
      ap (λ t. four v ++ t) e,
      λ ws size chars r.
          let more : chars + 4 + length text ≡ chars + length (four v ++ text) = omega arith in
          decode_from-four ws v size chars text low (omega (arith, r))
          ∙ (ap (written (three (0x1000000 + v)))
                (reads ws (size - 3) (chars + 4) (omega (arith, r)))
              ∙ (ap (λ t. (chars + 4 + length text, t ++ firsts count bin)) bytes
                  ∙ (ap (λ k. (k, a ∷ b ∷ c ∷ firsts count bin)) more
                      ∙ ap (λ t. (chars + length (four v ++ text), t))
                          (sym (firsts-group count a b c bin))))),
      λ ws k. count_from-four ws v k text low ∙ (counts ws (k + 3) ∙ omega arith),
    )

encode_from-Reads : (bin : List ℕ) (dsize : ℕ) → AreBytes bin → Reads bin (encode_from bin dsize)
unfolding encode_from tail_one tail_two
encode_from-Reads [] dsize v = nothing-Reads []
encode_from-Reads (a ∷ []) dsize (l, v) = elim (Bool-cases (ltb 4 dsize)) [
  | inl e ↦ rw e (
    tail_one (a * 0x10000),
    refl,
    λ ws size chars r. (decode_from-one ws a size chars l r).0,
    λ ws n. (decode_from-one ws a 1 n l (omega arith)).1,
  )
  | inr e ↦ rw e (nothing-Reads (a ∷ []))
]
encode_from-Reads (a ∷ b ∷ []) dsize (l, (m, v)) = elim (Bool-cases (ltb 4 dsize)) [
  | inl e ↦ rw e (
    tail_two a b,
    refl,
    λ ws size chars r. (decode_from-two ws a b size chars l m r).0,
    λ ws n. (decode_from-two ws a b 2 n l m (omega arith)).1,
  )
  | inr e ↦ rw e (nothing-Reads (a ∷ b ∷ []))
]
encode_from-Reads (a ∷ b ∷ c ∷ bin) dsize (l, (m, (n, v))) = elim (Bool-cases (ltb 4 dsize)) [
  | inl e ↦ rw e (
      group-Reads a b c bin (encode_from bin (dsize - 4)) l m n
        (encode_from-Reads bin (dsize - 4) v))
  | inr e ↦ rw e (nothing-Reads (a ∷ b ∷ c ∷ bin))
]

-- Whatever width it is given, `b64encode` of bytes writes a text and its terminator, from which
-- `b64decode`, with a size from the count that `b64encode` returned on, writes that many of the
-- bytes back and returns the number of all its chars; `b64count` of the text is that count.
pub b64decode-b64encode :
    (bin : List ℕ) (dsize size : ℕ) (ws : Bool)
    → AreBytes bin
    → (b64encode bin dsize).1 ≤ size
    → (text : List ℕ) × ((b64encode bin dsize).0 ≡ text ++ (0 ∷ []))
      × (b64decode text size ws ≡ (length text, firsts (b64encode bin dsize).1 bin))
      × (b64count text ws ≡ (b64encode bin dsize).1)
unfolding b64encode b64decode b64count
b64decode-b64encode bin dsize size ws v r =
    let (text, e, reads, counts) = encode_from-Reads bin (width bin dsize) v in
    (
      text,
      e,
      reads ws size 0 r
          ∙ ap (λ c. (c, firsts (encode_from bin (width bin dsize)).1 bin)) (omega arith),
      counts ws 0 ∙ omega arith,
    )
