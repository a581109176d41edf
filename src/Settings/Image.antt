-- ===== src/Settings/Image.antt =====
-- Sealing, validity and loading of a single image.
use drdro_mainboard.Base.{
  ℕ, zero, suc, ◌+◌, ◌-◌, ◌^◌, ◌≤◌, ◌<◌, ◌≡◌, refl, ap, ap₂, ◌∙◌, true, u32, Bytes, arith, List,
  ◌∷◌, le32, ==-of-eq,
}
use drdro_mainboard.Crc.{settings_crc32, byte_range}
use drdro_mainboard.Settings.{
  settings_compute_crc, settings_valid, settings_seal, put16, put32, stored_crc, magic, used_size,
  settings_size, settings_magic, settings_used_min, settings_used_max,
}

-- Two structs that agree on their first `n` bytes.
abbrev pub Agree : ℕ → Bytes → Bytes → Type 0
Agree n s t = (i : ℕ) → i < n → s i ≡ t i

pub byte_range_ext :
    (s t : Bytes) (i len : ℕ)
    → ((k : ℕ) → i ≤ k → k < i + len → s k ≡ t k)
    → byte_range s i len ≡ byte_range t i len
unfolding byte_range
byte_range_ext s t i zero h = refl
byte_range_ext s t i (suc len) h =
    ap₂ ◌∷◌ (h i (omega arith) (omega arith))
      (byte_range_ext s t (i + 1) len (λ k p q. h k (omega arith) (omega arith)))

pub settings_crc32-lt : (bs : List ℕ) → settings_crc32 bs < 2 ^ 32
unfolding settings_crc32
settings_crc32-lt bs = omega arith

-- The checksum depends on the recorded size and the bytes it covers, alone.
pub compute_crc-ext :
    (s t : Bytes)
    → 4 ≤ used_size s
    → used_size s ≡ used_size t
    → ((i : ℕ) → 4 ≤ i → i < used_size s → s i ≡ t i)
    → settings_compute_crc s ≡ settings_compute_crc t
unfolding settings_compute_crc
compute_crc-ext s t large size same = ap settings_crc32 (
    byte_range_ext s t 4 (u32 (used_size s + 2 ^ 32 - 4)) (λ k p q. same k p (omega arith))
    ∙ ap (λ n. byte_range t 4 (u32 (n + 2 ^ 32 - 4))) size)

le32-put32 : (w : ℕ) → w < 2 ^ 32 → le32 (put32 (λ i. 0) 0 w) 0 ≡ w
le32-put32 w h = omega arith

pub compute_crc-lt : (s : Bytes) → settings_compute_crc s < 2 ^ 32
unfolding settings_compute_crc
compute_crc-lt s = settings_crc32-lt (byte_range s 4 (u32 (used_size s + 2 ^ 32 - 4)))

-- What sealing leaves in the image: its own fields, and all else as it was.
pub used_size-seal : (s : Bytes) → used_size (settings_seal s) ≡ settings_size
unfolding settings_seal
used_size-seal s = refl

pub settings_seal-body : (s : Bytes) (i : ℕ) → 12 ≤ i → settings_seal s i ≡ s i
unfolding settings_seal
settings_seal-body s i h = ground arith

-- Sealing any struct makes a valid image.
pub settings_valid-seal : (s : Bytes) → settings_valid (settings_seal s) ≡ true
unfolding settings_valid settings_seal
settings_valid-seal s =
    ==-of-eq _ _ (le32-put32 (settings_compute_crc t) (compute_crc-lt t) ∙ covered)
  where
    t : Bytes
    t = put16 (put16 (put32 s 4 settings_magic) 8 1) 10 settings_size

    covered : settings_compute_crc t ≡ settings_compute_crc (put32 t 0 (settings_compute_crc t))
    covered =
        compute_crc-ext t (put32 t 0 (settings_compute_crc t)) (omega arith) refl
          (λ i p q. ground arith)

-- What a valid image shows, and what makes an image valid.
pub settings_valid-elim :
    (s : Bytes)
    → settings_valid s ≡ true
    → (magic s ≡ settings_magic)
      × (settings_used_min ≤ used_size s)
      × (used_size s ≤ settings_used_max)
      × (stored_crc s ≡ settings_compute_crc s)
unfolding settings_valid
settings_valid-elim s v = ground arith

pub settings_valid-intro :
    (s : Bytes)
    → magic s ≡ settings_magic
    → settings_used_min ≤ used_size s
    → used_size s ≤ settings_used_max
    → stored_crc s ≡ settings_compute_crc s
    → settings_valid s ≡ true
unfolding settings_valid
settings_valid-intro s m lo hi c = ground arith

-- Validity reads no byte from the recorded size on.
pub settings_valid-ext :
    (s t : Bytes)
    → ((i : ℕ) → i < 12 → s i ≡ t i)
    → ((i : ℕ) → i < used_size s → s i ≡ t i)
    → settings_valid s ≡ true
    → settings_valid t ≡ true
settings_valid-ext s t head body v =
    settings_valid-intro t (omega (arith, parts, word4, word10))
      (omega (arith, parts, word4, word10)) (omega (arith, parts, word10))
      (omega (arith, parts, word0, same_crc))
  where
    parts :
        (magic s ≡ settings_magic)
        × (settings_used_min ≤ used_size s)
        × (used_size s ≤ settings_used_max)
        × (stored_crc s ≡ settings_compute_crc s)
    parts = settings_valid-elim s v

    word0 : stored_crc s ≡ stored_crc t
    word0 = omega (arith, head 0, head 1, head 2, head 3)

    word4 : magic s ≡ magic t
    word4 = omega (arith, head 4, head 5, head 6, head 7)

    word10 : used_size s ≡ used_size t
    word10 = omega (arith, head 10, head 11)

    same_crc : settings_compute_crc s ≡ settings_compute_crc t
    same_crc = compute_crc-ext s t (omega (arith, parts)) word10 (λ i p q. body i q)
