-- ===== src/Crc/Examples.antt =====
-- The checks of "123456789", and of "12345678" and another digit.
use commoncpp.Common.{ℕ, ◌≡◌, ◌≢◌, refl, arith, List, [], ◌∷◌, ◌++◌}
use commoncpp.Crc.{rounds, round24, crc24_from, crc24, round16, crc16_from, crc16}
use commoncpp.Crc.Change.{crc16-change}

abbrev to_eight : List ℕ
to_eight = 0x31 ∷ 0x32 ∷ 0x33 ∷ 0x34 ∷ 0x35 ∷ 0x36 ∷ 0x37 ∷ 0x38 ∷ []

crc16-change_example :
    (crc16 (to_eight ++ (0x39 ∷ [])) ≢ crc16 (to_eight ++ (0x30 ∷ [])))
    × (crc24 (to_eight ++ (0x39 ∷ [])) ≢ crc24 (to_eight ++ (0x30 ∷ [])))
crc16-change_example =
    crc16-change to_eight [] 0x39 0x30 (ground arith) (omega arith) (ground arith)

-- The check values of CRC-16/MODBUS and of OpenPGP.
check_values :
    (crc16 (to_eight ++ (0x39 ∷ [])) ≡ 0x4b37) × (crc24 (to_eight ++ (0x39 ∷ [])) ≡ 0x21cf02)
unfolding crc16 crc16_from round16 crc24 crc24_from round24 rounds
check_values = (refl, refl)
