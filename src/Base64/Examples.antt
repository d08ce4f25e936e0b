-- ===== src/Base64/Examples.antt =====
-- Two bytes in base64, room for one group, and texts with blanks and other chars.
use commoncpp.Common.{
  ℕ, ◌+◌, ◌*◌, ◌/◌, ◌≤◌, ◌≡◌, refl, arith, true, false, List, [], ◌∷◌, ◌++◌, length,
}
use commoncpp.Hex.{is_space}
use commoncpp.Hex.Trips.{firsts}
use commoncpp.Base64.{
  letter, b64size, four, tail_one, tail_two, encode_from, b64encode, decode, count_round,
  count_from, b64count, decode_round, last_bytes, decode_from, b64decode,
}
use commoncpp.Base64.Trips.{b64decode-b64encode}
use commoncpp.Base64.Sizes.{length-b64encode, b64decode-size}

abbrev man : List ℕ
man = 0x4d ∷ 0x61 ∷ 0x6e ∷ 0x21 ∷ []

-- With room for one group, three bytes of four are written and read back.
b64decode-b64encode_example :
    (text : List ℕ) × ((b64encode man 8).0 ≡ text ++ (0 ∷ []))
    × (b64decode text 3 false ≡ (length text, firsts (b64encode man 8).1 man))
    × (b64count text false ≡ (b64encode man 8).1)
unfolding b64encode encode_from
b64decode-b64encode_example =
    b64decode-b64encode man 8 3 false (omega arith, (omega arith, (omega arith, (omega arith, tt))))
      (omega arith)

length-b64encode_example :
    (length (b64encode man 0).0 ≤ 9)
    × (length (b64encode man 0).0 ≡ 4 * (((b64encode man 0).1 + 2) / 3) + 1)
    × ((b64encode man 0).1 ≡ 4)
unfolding b64size
length-b64encode_example = length-b64encode man 0

b64decode-size_example :
    (length (b64decode (0x54 ∷ 0x57 ∷ 0x3d ∷ []) 1 true).1 ≤ 1)
    × ((b64decode (0x54 ∷ 0x57 ∷ 0x3d ∷ []) 1 true).0 ≤ 3)
b64decode-size_example = b64decode-size (0x54 ∷ 0x57 ∷ 0x3d ∷ []) 1 true

-- "TWFuIQ==", "TWF u", "TWF", and "TW!" with no `=`.
texts :
    (b64encode man 0 ≡ (0x54 ∷ 0x57 ∷ 0x46 ∷ 0x75 ∷ 0x49 ∷ 0x51 ∷ 0x3d ∷ 0x3d ∷ 0 ∷ [], 4))
    × (b64encode (0x4d ∷ 0x61 ∷ []) 0 ≡ (0x54 ∷ 0x57 ∷ 0x45 ∷ 0x3d ∷ 0 ∷ [], 2))
    × (b64decode (0x54 ∷ 0x57 ∷ 0x46 ∷ 0x20 ∷ 0x75 ∷ []) 9 true ≡ (5, 0x4d ∷ 0x61 ∷ 0x6e ∷ []))
    × (b64decode (0x54 ∷ 0x57 ∷ 0x46 ∷ 0x20 ∷ 0x75 ∷ []) 9 false ≡ (3, 0x4d ∷ 0x61 ∷ []))
    × (b64decode (0x54 ∷ 0x57 ∷ 0x46 ∷ 0x75 ∷ 0x49 ∷ []) 2 true ≡ (4, []))
    × (b64decode (0x54 ∷ 0x57 ∷ 0x21 ∷ []) 9 true ≡ (2, 0x4d ∷ []))
    × (b64count (0x54 ∷ 0x57 ∷ 0x46 ∷ []) true ≡ 2)
unfolding b64encode b64size encode_from four tail_one tail_two letter decode is_space count_round
    count_from b64count decode_round last_bytes decode_from b64decode
texts = (refl, refl, refl, refl, refl, refl, refl)
