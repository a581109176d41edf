-- ===== src/FwUpdate/Commit.antt =====
-- The end of an update: its commit, and what the bootloader makes of it.
use drdro_mainboard.Base.{◌<◌, ◌≡◌, ◌≢◌, ◌∙◌, sym, ap, ℕ, true, Bytes, arith}
use drdro_mainboard.Layout.{app_region_size, bank_count, bank_base}
use drdro_mainboard.Hal.{FlashHal, IsFlash}
use drdro_mainboard.Crc.{settings_crc32, byte_range}
use drdro_mainboard.Settings.{settings_load, loaded_bank}
use drdro_mainboard.Boot.{bl_image_valid, need_copy}
use drdro_mainboard.SettingsStore.{settings_commit_bank}
use drdro_mainboard.SettingsStore.Commit.{settings_commit_bank-need_copy}
use drdro_mainboard.FwUpdate.Session.{
  FwSession, fw_idle, is_done, committed, fw_image_valid, fw_update_commit,
}

-- The application and the bootloader accept the same images: their tests of the two vectors agree
-- on every memory and at every base.
pub fw_image_valid-bl_image_valid :
    (m : Bytes) (base : ℕ) → fw_image_valid m base ≡ bl_image_valid m base
unfolding fw_image_valid bl_image_valid
fw_image_valid-bl_image_valid m base = ground arith

module _ {D : Type 0} (hal : FlashHal D) where
  -- The checksum of the bank's region, as the commit computes it.
  abbrev pub bank_checksum : FwSession D → ℕ
  bank_checksum s =
      settings_crc32 (byte_range (hal.byte s.flash.dev) (bank_base s.bank) app_region_size)

  -- What a commit that answers with a checksum went through.
  committed_lem :
      (crc : ℕ) (s : FwSession D)
      → (fw_update_commit hal s).0 ≡ committed crc
      → (is_done s.state ≡ true)
        × (fw_image_valid (hal.byte s.flash.dev) (bank_base s.bank) ≡ true)
        × (crc ≡ bank_checksum s)
        × ((settings_commit_bank hal s.bank (bank_checksum s) s.flash.dev).0 ≡ true)
        × ((fw_update_commit hal s).1.flash.dev
            ≡ (settings_commit_bank hal s.bank (bank_checksum s) s.flash.dev).1)
        × ((fw_update_commit hal s).1.state ≡ fw_idle)
  unfolding fw_update_commit
  committed_lem crc s e = ground arith

module _ {D : Type 0} (hal : FlashHal D) (laws : IsFlash hal) where
  -- A commit that answers with a checksum, of a bank in range that is not the one recorded as
  -- loaded: the update was done, the checksum is that of the bank's whole region, the session is idle
  -- again, and the bootloader's next boot wants to copy that bank.
  pub fw_update_commit-need_copy :
      (crc : ℕ) (s : FwSession D)
      → (fw_update_commit hal s).0 ≡ committed crc
      → s.bank < bank_count
      → loaded_bank (settings_load (hal.byte s.flash.dev)).1 ≢ s.bank
      → (is_done s.state ≡ true)
        × (crc ≡ bank_checksum hal s)
        × ((fw_update_commit hal s).1.state ≡ fw_idle)
        × (need_copy (hal.byte (fw_update_commit hal s).1.flash.dev) ≡ true)
  fw_update_commit-need_copy crc s e low other =
      let h = committed_lem hal crc s e in
      (
        h.0,
        h.2,
        h.5,
        ap (λ (d : D). need_copy (hal.byte d)) h.4
            ∙ settings_commit_bank-need_copy hal laws s.bank s.flash.dev low
                (sym (fw_image_valid-bl_image_valid (hal.byte s.flash.dev) (bank_base s.bank))
                  ∙ h.1)
                other h.3,
      )
