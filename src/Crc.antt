-- ===== src/Crc.antt =====
-- corelib/string.cpp: the cyclic redundancy checks of String.
pub mod Rounds
pub mod Change
mod Examples
use Prim.Native.Nat.{bit_and, bit_xor}
use commoncpp.Common.{ℕ, zero, suc, ◌*◌, ◌/◌, ◌%◌, List, [], ◌∷◌, ◌==◌, if◌then◌else◌}

-- The inner loop of both: a round for each bit.
unfoldable pub rounds : (ℕ → ℕ) → ℕ → ℕ → ℕ
rounds round zero crc = crc
rounds round (suc i) crc = rounds round i (round crc)

unfoldable pub round24 : ℕ → ℕ
round24 crc =
    let c : ℕ = crc * 2 % 0x100000000 in if bit_and c 0x1000000 == 0 then c else bit_xor c 0x1864cfb

unfoldable pub crc24_from : List ℕ → ℕ → ℕ
crc24_from [] crc = crc
crc24_from (b ∷ binary) crc = crc24_from binary (rounds round24 8 (bit_xor crc (b * 0x10000)))

unfoldable pub crc24 : List ℕ → ℕ
crc24 binary = crc24_from binary 0xb704ce % 0x1000000

unfoldable pub round16 : ℕ → ℕ
round16 crc = if bit_and crc 1 == 0 then crc / 2 else bit_xor (crc / 2) 0xa001

unfoldable pub crc16_from : List ℕ → ℕ → ℕ
crc16_from [] crc = crc
crc16_from (b ∷ binary) crc = crc16_from binary (rounds round16 8 (bit_xor crc b))

unfoldable pub crc16 : List ℕ → ℕ
crc16 binary = crc16_from binary 0xffff
