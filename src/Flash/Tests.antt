-- ===== src/Flash/Tests.antt =====
-- The laws of the flash writes, on the simulated part.
use drdro_mainboard.Base.{
  ℕ, ◌-◌, ◌%◌, ◌<◌, ◌≤◌, ◌≡◌, refl, true, false, Bytes, arith, ltb, if◌then◌else◌,
}
use drdro_mainboard.Layout.{sector_begin, sector_end}
use drdro_mainboard.Crc.{settings_crc32, byte_range}
use drdro_mainboard.Hal.Sim.{sim, sim-IsFlash, sim-Works}
use drdro_mainboard.Settings.{
  settings_load, settings_defaults, settings_seal, settings_size, settings_valid, settings_pick,
  settings_compute_crc,
}
use drdro_mainboard.Settings.Newest.{slot_of}
use drdro_mainboard.Settings.Save.{Survives}
use drdro_mainboard.Flash.{Session, flash_write_settings}
use drdro_mainboard.Flash.Word.{IsSource}
use drdro_mainboard.Flash.Region.{OnRegion}
use drdro_mainboard.Flash.Store.{flash_write_settings-load, flash_write_settings-Survives}
use drdro_mainboard.Flash.CopyWorks.{flash_write_settings-works}

-- A part whose slot A holds the defaults, the rest erased, with a session on bank 0.
abbrev fresh : Session Bytes
fresh = record {
  dev = λ a.
      if ltb a 0x08004000
      then 255
      else if ltb a 0x0800408C
      then settings_defaults (a - 0x08004000)
      else 255;
  base = 0x08040000;
  sector = 6;
  erased = false;
  fail_phase = 0;
  fail_addr = 0;
  fail_hal = 0;
}

fresh_loads : (settings_load ((sim false).byte fresh.dev)).0 ≡ true
unfolding settings_load settings_pick settings_valid settings_seal settings_compute_crc
    settings_defaults settings_crc32 byte_range
fresh_loads = refl

fresh-OnRegion : OnRegion fresh
fresh-OnRegion = record { sector_high = omega arith; sector_low = omega arith; at_base = refl }

abbrev pattern : Bytes
pattern i = i % 256

flash_write_settings-load_example :
    let m' = (sim true).byte (flash_write_settings (sim true) pattern fresh).1.1.dev in
    ((settings_load m').0 ≡ true)
    × ((i : ℕ) → 16 ≤ i → i < settings_size → (settings_load m').1 i ≡ pattern i)
flash_write_settings-load_example =
    flash_write_settings-load (sim true) (sim-IsFlash true) pattern fresh (λ a. omega arith)
      (flash_write_settings-works (sim true) (sim-IsFlash true) sim-Works pattern fresh
        (λ i. omega arith))

flash_write_settings-Survives_example :
    Survives
      ((sim false).byte fresh.dev)
      ((sim false).byte (flash_write_settings (sim false) pattern fresh).1.1.dev)
      (slot_of ((sim false).byte fresh.dev) pattern)
flash_write_settings-Survives_example =
    flash_write_settings-Survives (sim false) (sim-IsFlash false) pattern fresh fresh_loads

pattern-IsSource : IsSource (sim true) (λ d. pattern) 256 (sector_begin 6) (sector_end 6)
pattern-IsSource = record { steady = λ d d' same k h. refl; yields_bytes = λ d k. omega arith }
