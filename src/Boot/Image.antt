-- ===== src/Boot/Image.antt =====
-- What the bootloader's tests read: the vectors, the bank and the settings, nothing else.
use drdro_mainboard.Base.{
  ℕ, ◌+◌, ◌*◌, ◌≤◌, ◌<◌, ◌≡◌, refl, ap, ◌∙◌, true, some, le32, le32_ext, Bytes, arith,
}
use drdro_mainboard.Layout.{app_exec_base, app_region_size, app_region_end, bank_count, bank_base}
use drdro_mainboard.Crc.{byte_range}
use drdro_mainboard.Settings.{settings_load, bank_crc, settings_size}
use drdro_mainboard.Settings.Image.{Agree, byte_range_ext}
use drdro_mainboard.Settings.Save.{settings_load-ext}
use drdro_mainboard.Boot.{bl_image_valid, bl_bank_trusted, need_copy, selected_bank}

-- Two memories with the same bytes from `lo` up to `hi`.
abbrev pub SameWithin : ℕ → ℕ → Bytes → Bytes → Type 0
SameWithin lo hi m m' = (a : ℕ) → lo ≤ a → a < hi → m' a ≡ m a

-- An accepted image has its stack in RAM and its entry in the Exec region.
pub bl_image_valid-bounds :
    (m : Bytes) (base : ℕ)
    → bl_image_valid m base ≡ true
    → (0x20000000 ≤ le32 m base)
      × (le32 m base ≤ 0x20020000)
      × (app_exec_base ≤ le32 m (base + 4))
      × (le32 m (base + 4) < app_region_end)
unfolding bl_image_valid
bl_image_valid-bounds m base h = ground arith

-- Two images with the same eight bytes of vectors are accepted alike.
pub bl_image_valid-ext :
    (m m' : Bytes) (b b' : ℕ)
    → ((k : ℕ) → k < 8 → m' (b' + k) ≡ m (b + k))
    → bl_image_valid m' b' ≡ bl_image_valid m b
unfolding bl_image_valid
bl_image_valid-ext m m' b b' same = rw (sp, pc)
  where
    sp : le32 m' b' ≡ le32 m b
    sp = le32_ext m m' b b' (λ k h. same k (omega arith))

    pc : le32 m' (b' + 4) ≡ le32 m (b + 4)
    pc = le32_ext m m' (b + 4) (b' + 4) λ k h.
        ap m' {x = b' + 4 + k} {y = b' + (4 + k)} (omega arith)
        ∙ same (4 + k) (omega arith)
        ∙ ap m {x = b + (4 + k)} {y = b + 4 + k} (omega arith)

pub bank_base_range : (bank : ℕ) → (0x08040000 ≤ bank_base bank) × (bank_base bank ≤ 0x08060000)
bank_base_range bank = ground arith

-- Whether a bank is trusted depends on the bank's bytes and the checksum that the settings record.
pub bl_bank_trusted-ext :
    (m m' s s' : Bytes) (bank bank' : ℕ)
    → bank' ≡ bank
    → SameWithin 0x08040000 0x08080000 m m'
    → bank_crc s' bank ≡ bank_crc s bank
    → bl_bank_trusted m' bank' (some s') ≡ bl_bank_trusted m bank (some s)
unfolding bl_bank_trusted
bl_bank_trusted-ext m m' s s' bank bank' e same crc = rw (e, image, region, crc)
  where
    image : bl_image_valid m' (bank_base bank) ≡ bl_image_valid m (bank_base bank)
    image = bl_image_valid-ext m m' (bank_base bank) (bank_base bank) λ k h.
        same (bank_base bank + k) (omega (arith, bank_base_range bank))
          (omega (arith, bank_base_range bank))

    region :
        byte_range m' (bank_base bank) app_region_size
        ≡ byte_range m (bank_base bank) app_region_size
    region =
        byte_range_ext m' m (bank_base bank) app_region_size λ k p q.
          same k (omega (arith, bank_base_range bank)) (omega (arith, bank_base_range bank))

-- A trusted bank exists and holds an accepted image.
pub bl_bank_trusted-valid :
    (m s : Bytes) (bank : ℕ)
    → bl_bank_trusted m bank (some s) ≡ true
    → (bank < bank_count) × (bl_image_valid m (bank_base bank) ≡ true)
unfolding bl_bank_trusted
bl_bank_trusted-valid m s bank h = ground arith

pub selected_bank-lt : (s : Bytes) → selected_bank s < bank_count
selected_bank-lt s = ground arith

-- Structs that agree select the same bank and record the same checksum for it.
selected_bank-ext : (s s' : Bytes) → Agree settings_size s' s → selected_bank s' ≡ selected_bank s
selected_bank-ext s s' same = rw (same 16 (omega arith))

bank_crc-ext :
    (s s' : Bytes) (bank : ℕ)
    → bank < bank_count
    → Agree settings_size s' s
    → bank_crc s' bank ≡ bank_crc s bank
bank_crc-ext s s' bank h same =
    le32_ext s s' (20 + 4 * bank) (20 + 4 * bank) (λ k lt. same (20 + 4 * bank + k) (omega arith))

-- The boot decision reads the settings slots and the banks: whatever a copy that was cut off left
-- in the Exec region, the next boot decides as before.
pub need_copy-ext :
    (m m' : Bytes)
    → SameWithin 0x08004000 0x0800C000 m m'
    → SameWithin 0x08040000 0x08080000 m m'
    → need_copy m' ≡ need_copy m
unfolding need_copy
need_copy-ext m m' slots banks = rw (loaded.0, loaded.1 17 (omega arith), bank, trust)
  where
    loaded :
        ((settings_load m').0 ≡ (settings_load m).0)
        × Agree settings_size (settings_load m').1 (settings_load m).1
    loaded = settings_load-ext m m' slots

    s : Bytes
    s = (settings_load m).1

    s' : Bytes
    s' = (settings_load m').1

    bank : selected_bank s' ≡ selected_bank s
    bank = selected_bank-ext s s' loaded.1

    trust :
        bl_bank_trusted m' (selected_bank s) (some s')
        ≡ bl_bank_trusted m (selected_bank s) (some s)
    trust =
        bl_bank_trusted-ext m m' s s' (selected_bank s) (selected_bank s) refl banks
          (bank_crc-ext s s' (selected_bank s) (selected_bank-lt s) loaded.1)
