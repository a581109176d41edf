-- ===== src/Base/Word.antt =====
-- The fixed widths of C: casts by remainder, shifts by powers of two, little-endian words.
use Prim.Native.Nat.{ℕ, ◌+◌, ◌*◌, ◌/◌, ◌%◌, ◌^◌, ◌<◌}
use mathlib.Core.Path.{◌≡◌, ap}
use native.Mathlib.Omega.{arith}

abbrev pub u8 : ℕ → ℕ
u8 n = n % 2 ^ 8

abbrev pub u16 : ℕ → ℕ
u16 n = n % 2 ^ 16

abbrev pub u32 : ℕ → ℕ
u32 n = n % 2 ^ 32

-- The byte `k` of a word, counted from the lowest.
abbrev pub byte_of : ℕ → ℕ → ℕ
byte_of w k = w / 256 ^ k % 256

-- Memory seen from an address: the byte at each offset.
abbrev pub Bytes : Type 0
Bytes = ℕ → ℕ

-- The word that the Cortex-M4 reads at an offset (little-endian).
abbrev pub le16 : Bytes → ℕ → ℕ
le16 m i = m i + 256 * m (i + 1)

abbrev pub le32 : Bytes → ℕ → ℕ
le32 m i = m i + 256 * m (i + 1) + 65536 * m (i + 2) + 16777216 * m (i + 3)

abbrev pub IsByte : ℕ → Type 0
IsByte b = b < 256

-- Two words read the same only where their bytes are the same.
pub bytes_of_le32 :
    (a0 a1 a2 a3 b0 b1 b2 b3 : ℕ)
    → IsByte a0
    → IsByte a1
    → IsByte a2
    → IsByte a3
    → IsByte b0
    → IsByte b1
    → IsByte b2
    → IsByte b3
    → a0 + 256 * a1 + 65536 * a2 + 16777216 * a3 ≡ b0 + 256 * b1 + 65536 * b2 + 16777216 * b3
    → (a0 ≡ b0) × (a1 ≡ b1) × (a2 ≡ b2) × (a3 ≡ b3)
bytes_of_le32 a0 a1 a2 a3 b0 b1 b2 b3 h0 h1 h2 h3 k0 k1 k2 k3 e = omega arith

-- A word is read from its four bytes.
pub le32_ext :
    (m m' : Bytes) (a a' : ℕ) → ((k : ℕ) → k < 4 → m' (a' + k) ≡ m (a + k)) → le32 m' a' ≡ le32 m a
le32_ext m m' a a' same = omega (
  arith,
  ap m' {x = a'} {y = a' + 0} (omega arith),
  ap m {x = a + 0} {y = a} (omega arith),
  same 0 (omega arith),
  same 1 (omega arith),
  same 2 (omega arith),
  same 3 (omega arith),
)
