-- ===== src/Crc/Laws.antt =====
-- What the CRC-32 promises: its state stays a word, it is fed in pieces as in one run, and it
-- tells apart any two messages that differ in one byte.
use drdro_mainboard.Base.{
  ℕ, zero, suc, ◌+◌, ◌/◌, ◌%◌, ◌^◌, ◌≤◌, ◌<◌, bit_xor, ◌≡◌, refl, ◌∙◌, sym, List, [], ◌∷◌, ◌++◌,
  arith, IsByte, All, ◌⊎◌, inl, inr, ◌≢◌,
}
use drdro_mainboard.Base.Bits.{
  bit_xor_cancel, bit_xor-lt, le-bit_xor, bit_xor-zero, bit_xor_cancel_left,
}
use drdro_mainboard.Crc.{crc32_poly, crc32_bit, crc32_bits, crc32_byte, crc32_loop, settings_crc32}

mod_two : (n : ℕ) → (n % 2 ≡ 0) ⊎ (n % 2 ≡ 1)
mod_two n = omega arith

abbrev IsWord : ℕ → Type 0
IsWord n = n < 2 ^ 32

crc32_bit_even : (c : ℕ) → c % 2 ≡ 0 → crc32_bit c ≡ c / 2
unfolding crc32_bit
crc32_bit_even c h = rw h (bit_xor-zero (c / 2))

crc32_bit_odd : (c : ℕ) → c % 2 ≡ 1 → crc32_bit c ≡ bit_xor (c / 2) crc32_poly
unfolding crc32_bit
crc32_bit_odd c h = rw h refl

-- An odd state leaves its mark in the top bit, an even one does not.
crc32_bit-ge : (c : ℕ) → IsWord c → c % 2 ≡ 1 → 2 ^ 31 ≤ crc32_bit c
crc32_bit-ge c w h =
    rw (crc32_bit_odd c h)
      (le-bit_xor 31 (c / 2) crc32_poly (omega arith) (omega arith) (omega arith))

crc32_bit-IsWord : (c : ℕ) → IsWord c → IsWord (crc32_bit c)
crc32_bit-IsWord c w = elim (mod_two c) [
  | inl even ↦ rw (crc32_bit_even c even) (omega arith)
  | inr odd ↦
      rw (crc32_bit_odd c odd) (bit_xor-lt 32 (c / 2) crc32_poly (omega arith) (omega arith))
]

crc32_bit-injective : (c d : ℕ) → IsWord c → IsWord d → crc32_bit c ≡ crc32_bit d → c ≡ d
crc32_bit-injective c d v w e = go (mod_two c) (mod_two d)
  where
    halves : c % 2 ≡ 1 → d % 2 ≡ 1 → c / 2 ≡ d / 2
    halves p q =
        bit_xor_cancel (c + d) (c / 2) (d / 2) crc32_poly (omega arith) (omega arith)
          (sym (crc32_bit_odd c p) ∙ e ∙ crc32_bit_odd d q)

    go : (c % 2 ≡ 0) ⊎ (c % 2 ≡ 1) → (d % 2 ≡ 0) ⊎ (d % 2 ≡ 1) → c ≡ d
    go (inl p) (inl q) = omega (arith, e, crc32_bit_even c p, crc32_bit_even d q)
    go (inl p) (inr q) = absurd (omega (arith, e, crc32_bit_even c p, crc32_bit-ge d w q))
    go (inr p) (inl q) = absurd (omega (arith, e, crc32_bit_even d q, crc32_bit-ge c v p))
    go (inr p) (inr q) = omega (arith, halves p q)

crc32_bits-IsWord : (n c : ℕ) → IsWord c → IsWord (crc32_bits n c)
unfolding crc32_bits
crc32_bits-IsWord zero c w = w
crc32_bits-IsWord (suc n) c w = crc32_bits-IsWord n (crc32_bit c) (crc32_bit-IsWord c w)

crc32_bits-injective : (n c d : ℕ) → IsWord c → IsWord d → crc32_bits n c ≡ crc32_bits n d → c ≡ d
unfolding crc32_bits
crc32_bits-injective zero c d v w e = e
crc32_bits-injective (suc n) c d v w e = crc32_bit-injective c d v w (
    crc32_bits-injective n (crc32_bit c) (crc32_bit d) (crc32_bit-IsWord c v) (crc32_bit-IsWord d w)
      e)

xor_byte-IsWord : (c b : ℕ) → IsWord c → IsByte b → IsWord (bit_xor c b)
xor_byte-IsWord c b w h = bit_xor-lt 32 c b w (omega arith)

pub crc32_byte-IsWord : (c b : ℕ) → IsWord c → IsByte b → IsWord (crc32_byte c b)
unfolding crc32_byte
crc32_byte-IsWord c b w h = crc32_bits-IsWord 8 (bit_xor c b) (xor_byte-IsWord c b w h)

crc32_byte-injective :
    (c d b : ℕ) → IsWord c → IsWord d → IsByte b → crc32_byte c b ≡ crc32_byte d b → c ≡ d
unfolding crc32_byte
crc32_byte-injective c d b v w h e = bit_xor_cancel (c + d) c d b (omega arith) (omega arith) (
    crc32_bits-injective 8 (bit_xor c b) (bit_xor d b) (xor_byte-IsWord c b v h)
      (xor_byte-IsWord d b w h) e)

crc32_byte-byte_injective :
    (c a b : ℕ) → IsWord c → IsByte a → IsByte b → crc32_byte c a ≡ crc32_byte c b → a ≡ b
unfolding crc32_byte
crc32_byte-byte_injective c a b w h k e = bit_xor_cancel_left c a b (
    crc32_bits-injective 8 (bit_xor c a) (bit_xor c b) (xor_byte-IsWord c a w h)
      (xor_byte-IsWord c b w k) e)

pub crc32_loop-IsWord : (c : ℕ) (bs : List ℕ) → IsWord c → All IsByte bs → IsWord (crc32_loop c bs)
unfolding crc32_loop
crc32_loop-IsWord c [] w h = w
crc32_loop-IsWord c (b ∷ bs) w h =
    crc32_loop-IsWord (crc32_byte c b) bs (crc32_byte-IsWord c b w h.0) h.1

crc32_loop-injective :
    (c d : ℕ) (bs : List ℕ)
    → IsWord c
    → IsWord d
    → All IsByte bs
    → crc32_loop c bs ≡ crc32_loop d bs
    → c ≡ d
unfolding crc32_loop
crc32_loop-injective c d [] v w h e = e
crc32_loop-injective c d (b ∷ bs) v w h e = crc32_byte-injective c d b v w h.0 (
    crc32_loop-injective (crc32_byte c b) (crc32_byte d b) bs (crc32_byte-IsWord c b v h.0)
      (crc32_byte-IsWord d b w h.0) h.1 e)

-- Feeding a message in two pieces is feeding it in one.
pub crc32_loop-append :
    (c : ℕ) (xs ys : List ℕ) → crc32_loop c (xs ++ ys) ≡ crc32_loop (crc32_loop c xs) ys
unfolding crc32_loop
crc32_loop-append c [] ys = refl
crc32_loop-append c (x ∷ xs) ys = crc32_loop-append (crc32_byte c x) xs ys

-- Equal checksums of two messages that differ in one place at most: no difference there.
one_byte_equal :
    (xs ys : List ℕ) (a b : ℕ)
    → All IsByte xs
    → All IsByte ys
    → IsByte a
    → IsByte b
    → settings_crc32 (xs ++ (a ∷ ys)) ≡ settings_crc32 (xs ++ (b ∷ ys))
    → a ≡ b
unfolding settings_crc32
one_byte_equal xs ys a b hx hy ha hb e = crc32_byte-byte_injective mid a b mid_word ha hb (
    crc32_loop-injective (crc32_byte mid a) (crc32_byte mid b) ys
      (crc32_byte-IsWord mid a mid_word ha) (crc32_byte-IsWord mid b mid_word hb) hy
      (omega (
        arith,
        e,
        crc32_loop-append 0xFFFFFFFF xs (a ∷ ys),
        crc32_loop-append 0xFFFFFFFF xs (b ∷ ys),
        crc32_loop-IsWord (crc32_byte mid a) ys (crc32_byte-IsWord mid a mid_word ha) hy,
        crc32_loop-IsWord (crc32_byte mid b) ys (crc32_byte-IsWord mid b mid_word hb) hy,
      )))
  where
    mid : ℕ
    mid = crc32_loop 0xFFFFFFFF xs

    mid_word : IsWord mid
    mid_word = crc32_loop-IsWord 0xFFFFFFFF xs (omega arith) hx

-- The CRC-32 detects every change of a single byte: two messages of bytes that agree everywhere
-- but at one place, and differ there, have different checksums.
pub settings_crc32_one_byte :
    (xs ys : List ℕ) (a b : ℕ)
    → All IsByte xs
    → All IsByte ys
    → IsByte a
    → IsByte b
    → a ≢ b
    → settings_crc32 (xs ++ (a ∷ ys)) ≢ settings_crc32 (xs ++ (b ∷ ys))
settings_crc32_one_byte xs ys a b hx hy ha hb apart e =
    apart (one_byte_equal xs ys a b hx hy ha hb e)
