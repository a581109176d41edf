-- ===== src/Crc.antt =====
-- `settings_crc32` of firmware/shared/Settings.h: the table-less CRC-32 (IEEE 802.3, reflected)
-- that seals settings images and bank regions. A message is the list of its bytes.
pub mod Laws
mod Tests
use drdro_mainboard.Base.{
  ℕ, zero, suc, ◌+◌, ◌-◌, ◌/◌, ◌%◌, ◌^◌, bit_and, bit_xor, List, [], ◌∷◌, u32, Bytes,
}

abbrev pub crc32_poly : ℕ
crc32_poly = 0xEDB88320

-- `(crc >> 1) ^ (0xEDB88320U & (0U - (crc & 1U)))`.
pub crc32_bit : ℕ → ℕ
crc32_bit crc = bit_xor (crc / 2) (bit_and crc32_poly (u32 (2 ^ 32 - crc % 2)))

-- `for (int i = 0; i < 8; i++)`, with the rounds left.
pub crc32_bits : ℕ → ℕ → ℕ
unfolding crc32_bit
crc32_bits zero crc = crc
crc32_bits (suc n) crc = crc32_bits n (crc32_bit crc)

-- One byte: `crc ^= *p++`, then eight bits.
pub crc32_byte : ℕ → ℕ → ℕ
unfolding crc32_bits
crc32_byte crc b = crc32_bits 8 (bit_xor crc b)

-- `while (len--)`.
unfoldable pub crc32_loop : ℕ → List ℕ → ℕ
unfolding crc32_byte
crc32_loop crc [] = crc
crc32_loop crc (b ∷ bs) = crc32_loop (crc32_byte crc b) bs

-- `~crc` on 32 bits.
abbrev pub complement : ℕ → ℕ
complement crc = 0xFFFFFFFF - crc

unfoldable pub settings_crc32 : List ℕ → ℕ
unfolding crc32_loop
settings_crc32 bs = complement (crc32_loop 0xFFFFFFFF bs)

-- The `len` bytes of memory from offset `i` on.
unfoldable pub byte_range : Bytes → ℕ → ℕ → List ℕ
byte_range m i zero = []
byte_range m i (suc len) = m i ∷ byte_range m (i + 1) len
