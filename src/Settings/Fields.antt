-- ===== src/Settings/Fields.antt =====
-- The layout of `settings_t` and access to its fields at their offsets.
use drdro_mainboard.Base.{ℕ, ◌+◌, ◌*◌, ◌==◌, if◌then◌else◌, u8, byte_of, Bytes, le16, le32}

-- `sizeof(settings_t)`, `SETTINGS_USED_MIN` (the offset of `scale_num`), `SETTINGS_USED_MAX`.
abbrev pub settings_size : ℕ
settings_size = 140

abbrev pub settings_used_min : ℕ
settings_used_min = 28

abbrev pub settings_used_max : ℕ
settings_used_max = 4096

abbrev pub settings_magic : ℕ
settings_magic = 0x44524F32

-- Stores of one, two and four bytes.
abbrev pub put8 : Bytes → ℕ → ℕ → Bytes
put8 s off v i = if i == off then u8 v else s i

abbrev pub put16 : Bytes → ℕ → ℕ → Bytes
put16 s off v i = if i == off then byte_of v 0 else if i == off + 1 then byte_of v 1 else s i

abbrev pub put32 : Bytes → ℕ → ℕ → Bytes
put32 s off v i =
    if i == off
    then byte_of v 0
    else if i == off + 1
    then byte_of v 1
    else if i == off + 2
    then byte_of v 2
    else if i == off + 3
    then byte_of v 3
    else s i

abbrev pub stored_crc : Bytes → ℕ
stored_crc s = le32 s 0

abbrev pub magic : Bytes → ℕ
magic s = le32 s 4

abbrev pub used_size : Bytes → ℕ
used_size s = le16 s 10

abbrev pub seq : Bytes → ℕ
seq s = le32 s 12

abbrev pub active_bank : Bytes → ℕ
active_bank s = s 16

abbrev pub loaded_bank : Bytes → ℕ
loaded_bank s = s 17

abbrev pub boot_mode : Bytes → ℕ
boot_mode s = le16 s 18

abbrev pub bank_crc : Bytes → ℕ → ℕ
bank_crc s n = le32 s (20 + 4 * n)
