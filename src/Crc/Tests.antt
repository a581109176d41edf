-- ===== src/Crc/Tests.antt =====
-- The standard check value, and the law at an input.
use drdro_mainboard.Base.{◌≡◌, ◌≢◌, refl, [], ◌∷◌, arith}
use drdro_mainboard.Crc.{settings_crc32}
use drdro_mainboard.Crc.Laws.{settings_crc32_one_byte}

-- The message "123456789".
crc32_check_value :
    settings_crc32 (0x31 ∷ 0x32 ∷ 0x33 ∷ 0x34 ∷ 0x35 ∷ 0x36 ∷ 0x37 ∷ 0x38 ∷ 0x39 ∷ []) ≡ 0xCBF43926
unfolding settings_crc32
crc32_check_value = refl

settings_crc32_one_byte_example :
    settings_crc32 (0x31 ∷ 0x32 ∷ 0x33 ∷ 0x34 ∷ [])
    ≢ settings_crc32 (0x31 ∷ 0x32 ∷ 0x37 ∷ 0x34 ∷ [])
settings_crc32_one_byte_example =
    settings_crc32_one_byte (0x31 ∷ 0x32 ∷ []) (0x34 ∷ []) 0x33 0x37 (omega arith) (omega arith)
      (omega arith) (omega arith) (λ e. omega arith)
