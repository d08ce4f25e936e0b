-- ===== src/Hex/Examples.antt =====
-- Three bytes in base sixteen, and texts with blanks and with other chars.
use commoncpp.Common.{ℕ, ◌*◌, ◌≡◌, refl, arith, true, false, List, [], ◌∷◌, length}
use commoncpp.Hex.{
  is_space, to_upper, hexcode, byte_of, hexcount_from, hexcount, hex, hex2bin_from, hex2bin,
}
use commoncpp.Hex.Trips.{firsts, hex2bin-hex}
use commoncpp.Hex.Formats.{
  strtol, digits_value, run_length, hexsize_from, hexsize, dump_bytes, hexdump_from, hexdump, code,
  pack_bytes, hexpack_from, hexpack,
}
use commoncpp.Hex.Packs.{bytes_of, hexpack-hexdump}

abbrev three_bytes : List ℕ
three_bytes = 0x0f ∷ 0xa0 ∷ 0xff ∷ []

-- With a size of two, three bytes are written.
hex2bin-hex_example :
    (hex2bin (hex three_bytes) 2 true ≡ (2 * length (firsts 3 three_bytes), firsts 3 three_bytes))
    × (hexcount (hex three_bytes) true ≡ 3)
hex2bin-hex_example = hex2bin-hex three_bytes 2 true (omega arith, (omega arith, (omega arith, tt)))

-- "0f A0", "0fx" and "0f a".
texts :
    (hex2bin (0x30 ∷ 0x66 ∷ 0x20 ∷ 0x41 ∷ 0x30 ∷ []) 9 true ≡ (5, 0x0f ∷ 0xa0 ∷ []))
    × (hex2bin (0x30 ∷ 0x66 ∷ 0x20 ∷ 0x41 ∷ 0x30 ∷ []) 9 false ≡ (2, 0x0f ∷ []))
    × (hex2bin (0x30 ∷ 0x66 ∷ 0x78 ∷ []) 9 true ≡ (2, 0x0f ∷ []))
    × (hexcount (0x30 ∷ 0x66 ∷ 0x20 ∷ 0x61 ∷ []) true ≡ 1)
    × (hex (0x0f ∷ 0xa0 ∷ []) ≡ 0x30 ∷ 0x66 ∷ 0x61 ∷ 0x30 ∷ [])
unfolding is_space to_upper hexcode byte_of hexcount_from hexcount hex hex2bin_from hex2bin
texts = (refl, refl, refl, refl, refl)

-- "2-1" of the three bytes, and a text that is not as the format says, and one with no digits.
abbrev two_one : List ℕ
two_one = 0x32 ∷ 0x2d ∷ 0x31 ∷ []

hexpack-hexdump_example :
    (hexpack (hexdump three_bytes two_one).1 two_one
      ≡ ((hexdump three_bytes two_one).0, firsts 3 three_bytes))
    × ((hexdump three_bytes two_one).0 ≡ hexsize two_one)
unfolding bytes_of strtol digits_value run_length
hexpack-hexdump_example =
    hexpack-hexdump three_bytes two_one (omega arith, (omega arith, (omega arith, tt)))
      (omega arith)

formats :
    (hexdump three_bytes two_one ≡ (7, 0x30 ∷ 0x66 ∷ 0x61 ∷ 0x30 ∷ 0x2d ∷ 0x66 ∷ 0x66 ∷ []))
    × (hexsize (0x31 ∷ 0x30 ∷ 0x2d ∷ []) ≡ 21)
    × (hexpack (0x30 ∷ 0x66 ∷ 0x3a ∷ 0x66 ∷ 0x66 ∷ []) (0x31 ∷ 0x2d ∷ 0x31 ∷ []) ≡ (2, 0x0f ∷ []))
    × (hexpack (0x78 ∷ 0x79 ∷ []) (0x31 ∷ []) ≡ (2, 0xef ∷ []))
unfolding hexdump hexdump_from dump_bytes hexsize hexsize_from hexpack hexpack_from pack_bytes code
    hexcode to_upper strtol digits_value run_length
formats = (refl, refl, refl, refl)
