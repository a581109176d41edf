-- ===== src/SettingsStore/Trip.antt =====
-- The configuration through a save and a load.
use drdro_mainboard.Base.{
  ℕ, zero, suc, ◌+◌, ◌*◌, ◌%◌, ◌^◌, ◌≤◌, ◌<◌, ◌≡◌, ◌∙◌, refl, true, Bytes, IsByte, le16, le32,
  le32_ext, arith, ltb, u8, byte_of,
}
use drdro_mainboard.Hal.{FlashHal, IsFlash}
use drdro_mainboard.Settings.{
  settings_load, settings_size, active_bank, loaded_bank, boot_mode, bank_crc,
}
use drdro_mainboard.Settings.Newest.{AreBytes}
use drdro_mainboard.Settings.Range.{settings_load-AreBytes}
use drdro_mainboard.SettingsStore.{save_struct}
use drdro_mainboard.SettingsStore.Commit.{save_struct-load}
use drdro_mainboard.SettingsStore.Shared.{
  Scale, Shared, shared_to_settings, settings_to_shared, settings_save, settings_load_shared,
}

-- Every field is in the range of its type; the two that the settings keep in a byte fit one.
pub record ScaleFits (c : Scale) : Type 0 where
  pub num_fits : c.sync_ratio_num < 2 ^ 32
  pub den_fits : c.sync_ratio_den < 2 ^ 32
  pub enable_fits : c.sync_enable < 2 ^ 16
  pub filter_fits : c.filter_value < 2 ^ 16
  pub dir_fits : c.dir_invert < 2 ^ 16

pub record SharedFits (sh : Shared) : Type 0 where
  pub scales_fit : (i : ℕ) → ScaleFits (sh.scales i)
  pub floats_fit :
      (sh.max_speed < 2 ^ 32)
      × (sh.acceleration < 2 ^ 32)
      × (sh.jog_speed < 2 ^ 32)
      × (sh.index_speed < 2 ^ 32)
  pub words_fit : (sh.servo_mode < 2 ^ 16) × (sh.port < 2 ^ 16) × (sh.com_baud < 2 ^ 32)
  pub raw_fits : (i : ℕ) → sh.aout_raw i < 2 ^ 16
  pub bytes_fit : IsByte sh.dhcp × IsByte sh.debounce_ms
  pub addresses_fit : (i : ℕ) → IsByte (sh.cfg_ip i) × IsByte (sh.cfg_mask i) × IsByte (sh.cfg_gw i)

-- The same configuration in all that the settings keep.
pub record SameScale (c c' : Scale) : Type 0 where
  pub same_num : c.sync_ratio_num ≡ c'.sync_ratio_num
  pub same_den : c.sync_ratio_den ≡ c'.sync_ratio_den
  pub same_enable : c.sync_enable ≡ c'.sync_enable
  pub same_filter : c.filter_value ≡ c'.filter_value
  pub same_dir : c.dir_invert ≡ c'.dir_invert

pub record SameConfig (sh sh' : Shared) : Type 0 where
  pub same_scales : (i : ℕ) → i < 5 → SameScale (sh.scales i) (sh'.scales i)
  pub same_floats :
      (sh.max_speed ≡ sh'.max_speed)
      × (sh.acceleration ≡ sh'.acceleration)
      × (sh.jog_speed ≡ sh'.jog_speed)
      × (sh.index_speed ≡ sh'.index_speed)
  pub same_words :
      (sh.servo_mode ≡ sh'.servo_mode) × (sh.port ≡ sh'.port) × (sh.com_baud ≡ sh'.com_baud)
  pub same_raw : (i : ℕ) → i < 2 → sh.aout_raw i ≡ sh'.aout_raw i
  pub same_bytes : (sh.dhcp ≡ sh'.dhcp) × (sh.debounce_ms ≡ sh'.debounce_ms)
  pub same_addresses :
      (i : ℕ)
      → i < 4
      → (sh.cfg_ip i ≡ sh'.cfg_ip i)
        × (sh.cfg_mask i ≡ sh'.cfg_mask i)
        × (sh.cfg_gw i ≡ sh'.cfg_gw i)

-- A word, a half and a byte are put together from what the stores took them apart to.
abbrev joined32 : ℕ → ℕ
joined32 v = byte_of v 0 + 256 * byte_of v 1 + 65536 * byte_of v 2 + 16777216 * byte_of v 3

abbrev joined16 : ℕ → ℕ
joined16 v = byte_of v 0 + 256 * byte_of v 1

word_trip : (v : ℕ) → v < 2 ^ 32 → joined32 v ≡ v
word_trip v h = omega arith

half_trip : (v : ℕ) → v < 2 ^ 16 → joined16 v ≡ v
half_trip v h = omega arith

byte_trip : (v : ℕ) → IsByte v → v % 256 ≡ v
byte_trip v h = omega arith

u8_twice : (v : ℕ) → IsByte v → u8 (u8 v) ≡ v
u8_twice v h = omega arith

-- A struct with the bytes of the payload of another.
abbrev SamePayload : Bytes → Bytes → Type 0
SamePayload t u = (i : ℕ) → 16 ≤ i → i < settings_size → t i ≡ u i

word_at : (t u : Bytes) (off : ℕ) → SamePayload t u → 16 ≤ off → off ≤ 136 → le32 t off ≡ le32 u off
word_at t u off same lo hi =
    le32_ext u t off off (λ k h. same (off + k) (omega arith) (omega arith))

half_at : (t u : Bytes) (off : ℕ) → SamePayload t u → 16 ≤ off → off ≤ 136 → le16 t off ≡ le16 u off
half_at t u off same lo hi =
    omega (arith, same off (omega arith) (omega arith), same (off + 1) (omega arith) (omega arith))

module _ (sh sh0 : Shared) (s t : Bytes) (fits : SharedFits sh)
    (same : SamePayload t (shared_to_settings sh s)) where
  abbrev stored : Bytes
  stored = shared_to_settings sh s

  scale_trip :
      (i : ℕ)
      → le32 stored (28 + 4 * i) ≡ (sh.scales i).sync_ratio_num
      → le32 stored (48 + 4 * i) ≡ (sh.scales i).sync_ratio_den
      → le16 stored (68 + 2 * i) ≡ (sh.scales i).sync_enable
      → le16 stored (78 + 2 * i) ≡ (sh.scales i).filter_value
      → le16 stored (88 + 2 * i) ≡ (sh.scales i).dir_invert
      → i < 5
      → SameScale ((settings_to_shared t sh0).scales i) (sh.scales i)
  unfolding settings_to_shared
  scale_trip i num den enable filter dir h = rw in_range (record {
    same_num = word_at t stored (28 + 4 * i) same (omega arith) (omega arith) ∙ num;
    same_den = word_at t stored (48 + 4 * i) same (omega arith) (omega arith) ∙ den;
    same_enable = half_at t stored (68 + 2 * i) same (omega arith) (omega arith) ∙ enable;
    same_filter = half_at t stored (78 + 2 * i) same (omega arith) (omega arith) ∙ filter;
    same_dir = half_at t stored (88 + 2 * i) same (omega arith) (omega arith) ∙ dir;
  })
    where
      in_range : ltb i 5 ≡ true
      in_range = ground arith

  num_trip : (i : ℕ) → joined32 (sh.scales i).sync_ratio_num ≡ (sh.scales i).sync_ratio_num
  num_trip i = word_trip (sh.scales i).sync_ratio_num (fits.scales_fit i).num_fits

  den_trip : (i : ℕ) → joined32 (sh.scales i).sync_ratio_den ≡ (sh.scales i).sync_ratio_den
  den_trip i = word_trip (sh.scales i).sync_ratio_den (fits.scales_fit i).den_fits

  enable_trip : (i : ℕ) → joined16 (sh.scales i).sync_enable ≡ (sh.scales i).sync_enable
  enable_trip i = half_trip (sh.scales i).sync_enable (fits.scales_fit i).enable_fits

  filter_trip : (i : ℕ) → joined16 (sh.scales i).filter_value ≡ (sh.scales i).filter_value
  filter_trip i = half_trip (sh.scales i).filter_value (fits.scales_fit i).filter_fits

  dir_trip : (i : ℕ) → joined16 (sh.scales i).dir_invert ≡ (sh.scales i).dir_invert
  dir_trip i = half_trip (sh.scales i).dir_invert (fits.scales_fit i).dir_fits

  scales_trip : (i : ℕ) → i < 5 → SameScale ((settings_to_shared t sh0).scales i) (sh.scales i)
  unfolding shared_to_settings
  scales_trip zero =
      scale_trip 0 (num_trip 0) (den_trip 0) (enable_trip 0) (filter_trip 0) (dir_trip 0)
  scales_trip (suc zero) =
      scale_trip 1 (num_trip 1) (den_trip 1) (enable_trip 1) (filter_trip 1) (dir_trip 1)
  scales_trip (suc (suc zero)) =
      scale_trip 2 (num_trip 2) (den_trip 2) (enable_trip 2) (filter_trip 2) (dir_trip 2)
  scales_trip (suc (suc (suc zero))) =
      scale_trip 3 (num_trip 3) (den_trip 3) (enable_trip 3) (filter_trip 3) (dir_trip 3)
  scales_trip (suc (suc (suc (suc zero)))) =
      scale_trip 4 (num_trip 4) (den_trip 4) (enable_trip 4) (filter_trip 4) (dir_trip 4)
  scales_trip (suc (suc (suc (suc (suc i))))) = λ h. absurd (omega arith)

  word_back :
      (off v : ℕ)
      → 16 ≤ off
      → off ≤ 136
      → v < 2 ^ 32
      → le32 stored off ≡ joined32 v
      → le32 t off ≡ v
  word_back off v lo hi h e = word_at t stored off same lo hi ∙ e ∙ word_trip v h

  half_back :
      (off v : ℕ)
      → 16 ≤ off
      → off ≤ 136
      → v < 2 ^ 16
      → le16 stored off ≡ joined16 v
      → le16 t off ≡ v
  half_back off v lo hi h e = half_at t stored off same lo hi ∙ e ∙ half_trip v h

  byte_back : (off v : ℕ) → 16 ≤ off → off ≤ 136 → IsByte v → stored off ≡ v % 256 → t off ≡ v
  byte_back off v lo hi h e = same off lo (omega arith) ∙ e ∙ byte_trip v h

  raw_trip : (i : ℕ) → i < 2 → (settings_to_shared t sh0).aout_raw i ≡ sh.aout_raw i
  unfolding shared_to_settings settings_to_shared
  raw_trip zero h = half_back 116 (sh.aout_raw 0) (omega arith) (omega arith) (fits.raw_fits 0) refl
  raw_trip (suc zero) h =
      half_back 118 (sh.aout_raw 1) (omega arith) (omega arith) (fits.raw_fits 1) refl
  raw_trip (suc (suc i)) h = absurd (omega arith)

  addresses_trip :
      (i : ℕ)
      → i < 4
      → let c = settings_to_shared t sh0 in
        (c.cfg_ip i ≡ sh.cfg_ip i) × (c.cfg_mask i ≡ sh.cfg_mask i) × (c.cfg_gw i ≡ sh.cfg_gw i)
  unfolding shared_to_settings settings_to_shared
  addresses_trip zero h = (
    byte_back 124 (sh.cfg_ip 0) (omega arith) (omega arith) (fits.addresses_fit 0).0 refl,
    byte_back 128 (sh.cfg_mask 0) (omega arith) (omega arith) (fits.addresses_fit 0).1 refl,
    byte_back 132 (sh.cfg_gw 0) (omega arith) (omega arith) (fits.addresses_fit 0).2 refl,
  )
  addresses_trip (suc zero) h = (
    byte_back 125 (sh.cfg_ip 1) (omega arith) (omega arith) (fits.addresses_fit 1).0 refl,
    byte_back 129 (sh.cfg_mask 1) (omega arith) (omega arith) (fits.addresses_fit 1).1 refl,
    byte_back 133 (sh.cfg_gw 1) (omega arith) (omega arith) (fits.addresses_fit 1).2 refl,
  )
  addresses_trip (suc (suc zero)) h = (
    byte_back 126 (sh.cfg_ip 2) (omega arith) (omega arith) (fits.addresses_fit 2).0 refl,
    byte_back 130 (sh.cfg_mask 2) (omega arith) (omega arith) (fits.addresses_fit 2).1 refl,
    byte_back 134 (sh.cfg_gw 2) (omega arith) (omega arith) (fits.addresses_fit 2).2 refl,
  )
  addresses_trip (suc (suc (suc zero))) h = (
    byte_back 127 (sh.cfg_ip 3) (omega arith) (omega arith) (fits.addresses_fit 3).0 refl,
    byte_back 131 (sh.cfg_mask 3) (omega arith) (omega arith) (fits.addresses_fit 3).1 refl,
    byte_back 135 (sh.cfg_gw 3) (omega arith) (omega arith) (fits.addresses_fit 3).2 refl,
  )
  addresses_trip (suc (suc (suc (suc i)))) h = absurd (omega arith)

  config_trip : SameConfig (settings_to_shared t sh0) sh
  unfolding shared_to_settings settings_to_shared
  config_trip = record {
    same_scales = scales_trip;
    same_floats = (
      word_back 100 sh.max_speed (omega arith) (omega arith) fits.floats_fit.0 refl,
      word_back 104 sh.acceleration (omega arith) (omega arith) fits.floats_fit.1 refl,
      word_back 108 sh.jog_speed (omega arith) (omega arith) fits.floats_fit.2 refl,
      word_back 112 sh.index_speed (omega arith) (omega arith) fits.floats_fit.3 refl,
    );
    same_words = (
      half_back 98 sh.servo_mode (omega arith) (omega arith) fits.words_fit.0 refl,
      half_back 122 sh.port (omega arith) (omega arith) fits.words_fit.1 refl,
      word_back 136 sh.com_baud (omega arith) (omega arith) fits.words_fit.2 refl,
    );
    same_raw = raw_trip;
    same_bytes = (
      same 120 (omega arith) (omega arith) ∙ u8_twice sh.dhcp fits.bytes_fit.0,
      same 121 (omega arith) (omega arith) ∙ u8_twice sh.debounce_ms fits.bytes_fit.1,
    );
    same_addresses = addresses_trip;
  }

-- What is stored is bytes.
pub shared_to_settings-AreBytes :
    (sh : Shared) (s : Bytes) → AreBytes s → AreBytes (shared_to_settings sh s)
unfolding shared_to_settings
shared_to_settings-AreBytes sh s h k = ground (arith, h k)

-- The fields that the bootloader decides by, unchanged.
abbrev pub KeepsBootFields : Bytes → Bytes → Type 0
KeepsBootFields s s' =
    (active_bank s' ≡ active_bank s)
    × (loaded_bank s' ≡ loaded_bank s)
    × (boot_mode s' ≡ boot_mode s)
    × (bank_crc s' 0 ≡ bank_crc s 0)
    × (bank_crc s' 1 ≡ bank_crc s 1)

keeps_boot_fields :
    (sh : Shared) (s t : Bytes) → SamePayload t (shared_to_settings sh s) → KeepsBootFields s t
unfolding shared_to_settings
keeps_boot_fields sh s t same = (
  same 16 (omega arith) (omega arith),
  same 17 (omega arith) (omega arith),
  half_at t (shared_to_settings sh s) 18 same (omega arith) (omega arith),
  word_at t (shared_to_settings sh s) 20 same (omega arith) (omega arith),
  word_at t (shared_to_settings sh s) 24 same (omega arith) (omega arith),
)

module _ {D : Type 0} (hal : FlashHal D) (laws : IsFlash hal) where
  -- `SettingsSave` of a registry in the range of the settings' fields, if it returns 0, and then
  -- `SettingsLoad` into any registry: the code 1, the saved configuration in every field that the
  -- settings keep, and the bootloader's fields as before the save.
  pub settings_save-load :
      (sh sh0 : Shared) (d : D)
      → SharedFits sh
      → (settings_save hal sh d).0 ≡ true
      → let d' = (settings_save hal sh d).1 in
        ((settings_load_shared hal d' sh0).0 ≡ true)
        × SameConfig (settings_load_shared hal d' sh0).1 sh
        × KeepsBootFields (settings_load (hal.byte d)).1 (settings_load (hal.byte d')).1
  unfolding settings_save settings_load_shared
  settings_save-load sh sh0 d fits done =
      let s = (settings_load (hal.byte d)).1 in
      let stored = shared_to_settings sh s in
      let after =
        save_struct-load hal laws stored d
          (shared_to_settings-AreBytes sh s
            (settings_load-AreBytes (hal.byte d) (laws.byte_range d)))
          done in
      let t = (settings_load (hal.byte (save_struct hal stored d).1.1)).1 in
      rw after.0 (refl, config_trip sh sh0 s t fits after.1, keeps_boot_fields sh s t after.1)
