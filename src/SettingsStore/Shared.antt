-- ===== src/SettingsStore/Shared.antt =====
-- The configuration in the registry (`rampsSharedData_t`) and its place in the settings struct.
-- Fields that the settings do not keep are left out. A signed or float field is its bit pattern.
use drdro_mainboard.Base.{ℕ, ◌+◌, ◌*◌, Bool, true, false, Bytes, le16, le32, ltb, if◌then◌else◌, u8}
use drdro_mainboard.Hal.{FlashHal}
use drdro_mainboard.Settings.{put8, put16, put32, settings_load}
use drdro_mainboard.SettingsStore.{save_struct}

pub record Scale : Type 0 where
  pub sync_ratio_num : ℕ
  pub sync_ratio_den : ℕ
  pub sync_enable : ℕ
  pub filter_value : ℕ
  pub dir_invert : ℕ

pub record Shared : Type 0 where
  pub scales : ℕ → Scale
  pub max_speed : ℕ
  pub acceleration : ℕ
  pub jog_speed : ℕ
  pub index_speed : ℕ
  pub servo_mode : ℕ
  pub aout_raw : ℕ → ℕ
  pub dhcp : ℕ
  pub debounce_ms : ℕ
  pub port : ℕ
  pub cfg_ip : ℕ → ℕ
  pub cfg_mask : ℕ → ℕ
  pub cfg_gw : ℕ → ℕ
  pub com_baud : ℕ

-- One round of the first loop of `shared_to_settings`.
abbrev pub store_scale : Scale → ℕ → Bytes → Bytes
store_scale c i s =
    put16
      (put16
        (put16 (put32 (put32 s (28 + 4 * i) c.sync_ratio_num) (48 + 4 * i) c.sync_ratio_den)
          (68 + 2 * i) c.sync_enable)
        (78 + 2 * i) c.filter_value)
      (88 + 2 * i) c.dir_invert

abbrev pub store_scales : (ℕ → Scale) → Bytes → Bytes
store_scales c s =
    store_scale (c 4) 4
      (store_scale (c 3) 3 (store_scale (c 2) 2 (store_scale (c 1) 1 (store_scale (c 0) 0 s))))

-- A loop that copies four bytes.
abbrev pub store4 : (ℕ → ℕ) → ℕ → Bytes → Bytes
store4 v off s =
    put8 (put8 (put8 (put8 s off (v 0)) (off + 1) (v 1)) (off + 2) (v 2)) (off + 3) (v 3)

unfoldable pub shared_to_settings : Shared → Bytes → Bytes
shared_to_settings sh s =
    let s1 = store_scales sh.scales s in
    let s2 =
      put32 (put32 (put32 (put32 s1 100 sh.max_speed) 104 sh.acceleration) 108 sh.jog_speed) 112
        sh.index_speed in
    let s3 = put16 (put16 (put16 s2 98 sh.servo_mode) 116 (sh.aout_raw 0)) 118 (sh.aout_raw 1) in
    let s4 = put16 (put8 (put8 s3 120 (u8 sh.dhcp)) 121 (u8 sh.debounce_ms)) 122 sh.port in
    let s5 = store4 sh.cfg_gw 132 (store4 sh.cfg_mask 128 (store4 sh.cfg_ip 124 s4)) in
    put32 s5 136 sh.com_baud

-- Entries of an array that the loop does not reach keep what they hold.
unfoldable pub settings_to_shared : Bytes → Shared → Shared
settings_to_shared s sh = record {
  scales = λ i.
      if ltb i 5
      then record {
        sync_ratio_num = le32 s (28 + 4 * i);
        sync_ratio_den = le32 s (48 + 4 * i);
        sync_enable = le16 s (68 + 2 * i);
        filter_value = le16 s (78 + 2 * i);
        dir_invert = le16 s (88 + 2 * i);
      }
      else sh.scales i;
  max_speed = le32 s 100;
  acceleration = le32 s 104;
  jog_speed = le32 s 108;
  index_speed = le32 s 112;
  servo_mode = le16 s 98;
  aout_raw = λ i. if ltb i 2 then le16 s (116 + 2 * i) else sh.aout_raw i;
  dhcp = s 120;
  debounce_ms = s 121;
  port = le16 s 122;
  cfg_ip = λ i. if ltb i 4 then s (124 + i) else sh.cfg_ip i;
  cfg_mask = λ i. if ltb i 4 then s (128 + i) else sh.cfg_mask i;
  cfg_gw = λ i. if ltb i 4 then s (132 + i) else sh.cfg_gw i;
  com_baud = le32 s 136;
}

module _ {D : Type 0} (hal : FlashHal D) where
  unfoldable pub settings_save : Shared → D → Bool × D
  settings_save sh d =
      let (valid, s) = settings_load (hal.byte d) in (save_struct hal (shared_to_settings sh s) d).1

  -- `SettingsLoad`, and `SettingsApply` but for the return code.
  unfoldable pub settings_load_shared : D → Shared → Bool × Shared
  settings_load_shared d sh =
      let (valid, s) = settings_load (hal.byte d) in
      if valid then (true, settings_to_shared s sh) else (false, sh)
