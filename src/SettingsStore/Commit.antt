-- ===== src/SettingsStore/Commit.antt =====
-- `SettingsCommitBank` and `SettingsBankSet`: what they leave in the settings, and what the next
-- boot makes of it.
use drdro_mainboard.Base.{
  ℕ, ◌+◌, ◌*◌, ◌^◌, ◌≤◌, ◌<◌, ◌≡◌, ◌≢◌, ap, ◌∙◌, Bool, true, false, inl, inr, ◌⊎◌, Bytes, le32,
  le32_ext, arith,
}
use drdro_mainboard.Layout.{bank_count, bank_base, app_region_size}
use drdro_mainboard.Crc.{settings_crc32, byte_range}
use drdro_mainboard.Hal.{FlashHal, IsFlash, SameOutside}
use drdro_mainboard.Settings.{
  settings_load, settings_size, put8, put32, active_bank, loaded_bank, bank_crc,
}
use drdro_mainboard.Settings.Newest.{AreBytes}
use drdro_mainboard.Settings.Range.{put8-AreBytes, put32-AreBytes, settings_load-AreBytes}
use drdro_mainboard.Flash.{Session}
use drdro_mainboard.Flash.Store.{flash_write_settings-load, flash_write_settings-SameOutside}
use drdro_mainboard.SettingsStore.{save_struct, settings_commit_bank}
use drdro_mainboard.SettingsStore.Save.{save_struct-flash_write_settings}
use drdro_mainboard.Settings.Image.{byte_range_ext, settings_crc32-lt}
use drdro_mainboard.Boot.Image.{bl_image_valid-ext, bank_base_range}
use drdro_mainboard.Boot.{bl_image_valid, bl_bank_trusted, need_copy}

word_put :
    (s : Bytes) (off off' v w : ℕ)
    → v < 2 ^ 32
    → off' < off
    → le32 (put8 (put32 s off v) off' w) off ≡ v
word_put s off off' v w h k = ground arith

module _ {D : Type 0} (hal : FlashHal D) where
  -- The bootloader's session on a device.
  abbrev pub session : D → Session D
  session d = record {
    dev = d;
    base = 0;
    sector = 0;
    erased = false;
    fail_phase = 0;
    fail_addr = 0;
    fail_hal = 0;
  }

  abbrev pub committed : ℕ → ℕ → D → Bytes
  committed bank crc d = put8 (put32 (settings_load (hal.byte d)).1 (20 + 4 * bank) crc) 16 bank

  pub commit_saves :
      (bank crc : ℕ) (d : D)
      → bank < bank_count
      → settings_commit_bank hal bank crc d ≡ (save_struct hal (committed bank crc d) d).1
  unfolding settings_commit_bank
  commit_saves bank crc d h = ground arith

module _ {D : Type 0} (hal : FlashHal D) (laws : IsFlash hal) where
  -- A save of the application that returns 0 is what the next load returns.
  pub save_struct-load :
      (s : Bytes) (d : D)
      → AreBytes s
      → (save_struct hal s d).1.0 ≡ true
      → let m' = hal.byte (save_struct hal s d).1.1 in
        ((settings_load m').0 ≡ true)
        × ((i : ℕ) → 16 ≤ i → i < settings_size → (settings_load m').1 i ≡ s i)
  save_struct-load s d bytes =
      rw (save_struct-flash_write_settings hal s (session hal d))
        (flash_write_settings-load hal laws s (session hal d) bytes)

  pub committed-AreBytes : (bank crc : ℕ) (d : D) → AreBytes (committed hal bank crc d)
  committed-AreBytes bank crc d =
      put8-AreBytes (put32 (settings_load (hal.byte d)).1 (20 + 4 * bank) crc) 16 bank (
        put32-AreBytes (settings_load (hal.byte d)).1 (20 + 4 * bank) crc
          (settings_load-AreBytes (hal.byte d) (laws.byte_range d)))

  -- A commit that returns 0: the next load finds the bank selected, its checksum recorded, and all
  -- else from offset 16 on, the record of the loaded bank included, as the load before.
  pub settings_commit_bank-load :
      (bank crc : ℕ) (d : D)
      → bank < bank_count
      → crc < 2 ^ 32
      → (settings_commit_bank hal bank crc d).0 ≡ true
      → let s = (settings_load (hal.byte d)).1 in
        let (valid', s') = settings_load (hal.byte (settings_commit_bank hal bank crc d).1) in
        (valid' ≡ true)
        × (active_bank s' ≡ bank)
        × (bank_crc s' bank ≡ crc)
        × ((i : ℕ)
            → 17 ≤ i
            → i < settings_size
            → (i < 20 + 4 * bank) ⊎ (24 + 4 * bank ≤ i)
            → s' i ≡ s i)
  settings_commit_bank-load bank crc d h k = rw (commit_saves hal bank crc d h) (λ done.
      after (save_struct-load (committed hal bank crc d) d (committed-AreBytes bank crc d) done))
    where
      s : Bytes
      s = (settings_load (hal.byte d)).1

      after :
          {r : Bool × Bytes}
          → (r.0 ≡ true)
            × ((i : ℕ) → 16 ≤ i → i < settings_size → r.1 i ≡ committed hal bank crc d i)
          → (r.0 ≡ true)
            × (active_bank r.1 ≡ bank)
            × (bank_crc r.1 bank ≡ crc)
            × ((i : ℕ)
                → 17 ≤ i
                → i < settings_size
                → (i < 20 + 4 * bank) ⊎ (24 + 4 * bank ≤ i)
                → r.1 i ≡ s i)
      after {r = r} (ok, same) = (
        ok,
        same 16 (omega arith) (omega arith) ∙ ground arith,
        le32_ext (committed hal bank crc d) r.1 (20 + 4 * bank) (20 + 4 * bank)
              (λ j lt. same (20 + 4 * bank + j) (omega arith) (omega arith))
            ∙ word_put s (20 + 4 * bank) 16 crc bank k (omega arith),
        λ i p q out. same i (omega arith) q ∙ ground arith,
      )

  -- The save touches the settings sectors alone.
  commit-SameOutside :
      (bank crc : ℕ) (d : D)
      → bank < bank_count
      → SameOutside hal 0x08004000 0x0800C000 d (settings_commit_bank hal bank crc d).1
  commit-SameOutside bank crc d h a out =
      ap (λ (q : Bool × D). hal.byte q.1 a) (commit_saves hal bank crc d h)
      ∙ ap (λ (q : Bytes × (Bool × D)). hal.byte q.1.1 a)
          (save_struct-flash_write_settings hal (committed hal bank crc d) (session hal d))
      ∙ flash_write_settings-SameOutside hal laws (committed hal bank crc d) (session hal d) a out

  -- A commit that returns 0 of an accepted image, with the checksum of its region, into a bank that
  -- is not the one recorded as loaded: the next boot wants to copy it.
  pub settings_commit_bank-need_copy :
      (bank : ℕ) (d : D)
      → bank < bank_count
      → bl_image_valid (hal.byte d) (bank_base bank) ≡ true
      → loaded_bank (settings_load (hal.byte d)).1 ≢ bank
      → let crc = settings_crc32 (byte_range (hal.byte d) (bank_base bank) app_region_size) in
        (settings_commit_bank hal bank crc d).0 ≡ true
        → need_copy (hal.byte (settings_commit_bank hal bank crc d).1) ≡ true
  unfolding need_copy bl_bank_trusted
  settings_commit_bank-need_copy bank d h valid other done =
      let loaded =
        settings_commit_bank-load bank crc d h
          (settings_crc32-lt (byte_range (hal.byte d) (bank_base bank) app_region_size)) done in
      ground (
        arith,
        loaded.0,
        loaded.1,
        loaded.2,
        loaded.3 17 (omega arith) (omega arith) (inl (omega arith)),
        image,
        region,
      )
    where
      crc : ℕ
      crc = settings_crc32 (byte_range (hal.byte d) (bank_base bank) app_region_size)

      m' : Bytes
      m' = hal.byte (settings_commit_bank hal bank crc d).1

      image : bl_image_valid m' (bank_base bank) ≡ bl_image_valid (hal.byte d) (bank_base bank)
      image = bl_image_valid-ext (hal.byte d) m' (bank_base bank) (bank_base bank) λ k lt.
          commit-SameOutside bank crc d h (bank_base bank + k)
            (inr (omega (arith, bank_base_range bank)))

      region :
          byte_range m' (bank_base bank) app_region_size
          ≡ byte_range (hal.byte d) (bank_base bank) app_region_size
      region =
          byte_range_ext m' (hal.byte d) (bank_base bank) app_region_size
            λ k p q. commit-SameOutside bank crc d h k (inr (omega (arith, bank_base_range bank)))
