-- ===== src/SettingsStore/Tests.antt =====
-- A commit into bank 1 on the simulated part: while bank 0 is recorded as loaded, and while bank 1
-- is.
use drdro_mainboard.Base.{ℕ, ◌<◌, ◌≡◌, ◌∙◌, refl, ap, Bool, true, Bytes, arith}
use drdro_mainboard.Layout.{app_region_size, bank_base}
use drdro_mainboard.Crc.{settings_crc32, byte_range}
use drdro_mainboard.Hal.Sim.{sim, sim-IsFlash, sim-Works}
use drdro_mainboard.Settings.{
  settings_load, settings_pick, settings_valid, settings_load_one, settings_seal,
  settings_compute_crc, settings_defaults, settings_defaults_fields, is_newer,
}
use drdro_mainboard.Flash.{flash_write_settings}
use drdro_mainboard.Flash.CopyWorks.{flash_write_settings-works}
use drdro_mainboard.Boot.{need_copy, bl_image_valid}
use drdro_mainboard.Boot.Tests.{flash_with, selected}
use drdro_mainboard.SettingsStore.{save_struct, settings_commit_bank}
use drdro_mainboard.SettingsStore.Save.{save_struct-flash_write_settings}
use drdro_mainboard.SettingsStore.Commit.{
  session, committed, commit_saves, committed-AreBytes, settings_commit_bank-need_copy,
}
use drdro_mainboard.Base.{◌^◌, ◌-◌}
use drdro_mainboard.Settings.Newest.{AreBytes}
use drdro_mainboard.Settings.Range.{settings_load-AreBytes}
use drdro_mainboard.SettingsStore.Shared.{
  Shared, shared_to_settings, settings_save, settings_load_shared,
}
use drdro_mainboard.SettingsStore.Trip.{
  SharedFits, SameConfig, KeepsBootFields, shared_to_settings-AreBytes, settings_save-load,
}

pub commit-sim :
    (bank crc : ℕ) (d : Bytes) → bank < 2 → (settings_commit_bank (sim true) bank crc d).0 ≡ true
commit-sim bank crc d h =
    ap (λ (q : Bool × Bytes). q.0) (commit_saves (sim true) bank crc d h)
    ∙ ap (λ (q : Bytes × (Bool × Bytes)). q.1.0)
        (save_struct-flash_write_settings (sim true) s (session (sim true) d))
    ∙ flash_write_settings-works (sim true) (sim-IsFlash true) sim-Works s (session (sim true) d)
        (committed-AreBytes (sim true) (sim-IsFlash true) bank crc d)
  where
    s : Bytes
    s = committed (sim true) bank crc d

abbrev pub other_loaded : Bytes
other_loaded = flash_with (selected 0 0)

abbrev same_loaded : Bytes
same_loaded = flash_with (selected 1 1)

save_struct-flash_write_settings_example :
    let r = flash_write_settings (sim true) settings_defaults (session (sim true) other_loaded) in
    save_struct (sim true) settings_defaults other_loaded ≡ (r.0, (r.1.0, r.1.1.dev))
save_struct-flash_write_settings_example =
    save_struct-flash_write_settings (sim true) settings_defaults (session (sim true) other_loaded)

abbrev region_crc : ℕ
region_crc =
    settings_crc32 (byte_range ((sim true).byte other_loaded) (bank_base 1) app_region_size)

pub bank_accepted : bl_image_valid ((sim true).byte other_loaded) (bank_base 1) ≡ true
unfolding bl_image_valid
bank_accepted = refl

pub other_loaded-record : (settings_load ((sim true).byte other_loaded)).1 17 ≡ 0
unfolding settings_load settings_pick settings_valid settings_load_one settings_seal
    settings_compute_crc settings_defaults settings_defaults_fields settings_crc32 byte_range
    is_newer
other_loaded-record = refl

settings_commit_bank-need_copy_example :
    need_copy ((sim true).byte (settings_commit_bank (sim true) 1 region_crc other_loaded).1) ≡ true
settings_commit_bank-need_copy_example =
    settings_commit_bank-need_copy (sim true) (sim-IsFlash true) 1 other_loaded (omega arith)
      bank_accepted (λ e. omega (arith, e, other_loaded-record))
      (commit-sim 1 region_crc other_loaded (omega arith))

abbrev config : Shared
config = record {
  scales = λ i. record {
    sync_ratio_num = 2 ^ 32 - 1;
    sync_ratio_den = 100;
    sync_enable = 1;
    filter_value = 5;
    dir_invert = 0;
  };
  max_speed = 0x44340000;
  acceleration = 0x42F00000;
  jog_speed = 0;
  index_speed = 0;
  servo_mode = 1;
  aout_raw = λ i. 4095;
  dhcp = 0;
  debounce_ms = 20;
  port = 5555;
  cfg_ip = λ i. 10;
  cfg_mask = λ i. 255;
  cfg_gw = λ i. 1;
  com_baud = 115200;
}

config-SharedFits : SharedFits config
config-SharedFits = record {
  scales_fit = λ i. record {
    num_fits = omega arith;
    den_fits = omega arith;
    enable_fits = omega arith;
    filter_fits = omega arith;
    dir_fits = omega arith;
  };
  floats_fit = (omega arith, omega arith, omega arith, omega arith);
  words_fit = (omega arith, omega arith, omega arith);
  raw_fits = λ i. omega arith;
  bytes_fit = (omega arith, omega arith);
  addresses_fit = λ i. (omega arith, omega arith, omega arith);
}

save-sim : (s d : Bytes) → AreBytes s → (save_struct (sim true) s d).1.0 ≡ true
save-sim s d h =
    ap (λ (q : Bytes × (Bool × Bytes)). q.1.0)
      (save_struct-flash_write_settings (sim true) s (session (sim true) d))
    ∙ flash_write_settings-works (sim true) (sim-IsFlash true) sim-Works s (session (sim true) d) h

config-saves : (settings_save (sim true) config other_loaded).0 ≡ true
unfolding settings_save
config-saves =
    save-sim (shared_to_settings config (settings_load ((sim true).byte other_loaded)).1)
      other_loaded
      (shared_to_settings-AreBytes config (settings_load ((sim true).byte other_loaded)).1
        (settings_load-AreBytes ((sim true).byte other_loaded) (λ a. omega arith)))

settings_save-load_example :
    let d' = (settings_save (sim true) config other_loaded).1 in
    ((settings_load_shared (sim true) d' config).0 ≡ true)
    × SameConfig (settings_load_shared (sim true) d' config).1 config
    × KeepsBootFields
        (settings_load ((sim true).byte other_loaded)).1
        (settings_load ((sim true).byte d')).1
settings_save-load_example =
    settings_save-load (sim true) (sim-IsFlash true) config config other_loaded config-SharedFits
      config-saves
