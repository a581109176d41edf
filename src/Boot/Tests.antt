-- ===== src/Boot/Tests.antt =====
-- A board whose settings select bank 1 while bank 0 is recorded as loaded; an accepted image in
-- bank 1 and in the Exec region; the rest erased.
use drdro_mainboard.Base.{
  ℕ, ◌+◌, ◌-◌, ◌<◌, ◌≡◌, refl, Bool, true, false, ◌&&◌, ltb, leb, ◌==◌, if◌then◌else◌, Bytes, arith,
  le32, ◌⊎◌, ◌≤◌,
}
use drdro_mainboard.Layout.{app_exec_base, app_region_size, bank_base}
use drdro_mainboard.Crc.{settings_crc32, byte_range}
use drdro_mainboard.Hal.Sim.{sim, sim-IsFlash, sim-Works, Part}
use drdro_mainboard.Settings.{
  settings_seal, settings_defaults, settings_load, put8, settings_valid, settings_compute_crc,
  settings_pick, settings_load_one, is_newer,
}
use drdro_mainboard.Flash.{
  flash_copy_region, copy_chunks, flash_program_write, flash_program_begin, ensure_erased,
  flash_erase_sector,
}
use drdro_mainboard.Flash.CopyWorks.{flash_copy_region-works}
use drdro_mainboard.Boot.{
  Machine, need_copy, bl_bank_trusted, bl_image_valid, bl_boot_app, bl_load_bank, main, memory,
  jumped, returned,
}
use drdro_mainboard.Boot.Image.{selected_bank-lt}
use drdro_mainboard.Boot.Run.{
  JumpsIntoExec, machine, KeepsBanks, main-JumpsIntoExec, main-KeepsBanks,
}
use drdro_mainboard.Boot.Once.{recorded, bl_boot_app_once}
use drdro_mainboard.Settings.Range.{put8-AreBytes, settings_load-AreBytes}
use drdro_mainboard.Flash.CopyWorks.{flash_write_settings-works}
use drdro_mainboard.Boot.Activate.{settings_of, bank_of, bl_boot_app_activates, bl_boot_app_retries}

abbrev pub selected : ℕ → ℕ → Bytes
selected active loaded = settings_seal (put8 (put8 settings_defaults 16 active) 17 loaded)

abbrev pub flash_with : Bytes → Bytes
flash_with s a =
    if leb 0x08004000 a && ltb a 0x0800408C
    then s (a - 0x08004000)
    else if a == 0x08060003
    then 0x20
    else if leb 0x08060000 a && ltb a 0x08060003
    then 0
    else if leb 0x08060004 a && ltb a 0x08060008
    then (if a == 0x08060007 then 8 else if a == 0x08060006 then 2 else 1)
    else if a == 0x08020003
    then 0x20
    else if leb 0x08020000 a && ltb a 0x08020003
    then 0
    else if leb 0x08020004 a && ltb a 0x08020008
    then (if a == 0x08020007 then 8 else if a == 0x08020006 then 2 else 4)
    else 255

abbrev board : Bytes → Machine Bytes
board s = record {
  flash = record {
    dev = flash_with s;
    base = 0;
    sector = 0;
    erased = false;
    fail_phase = 0;
    fail_addr = 0;
    fail_hal = 0;
  };
  hw_inited = false;
}

abbrev sample : Machine Bytes
sample = board (selected 1 0)

wants_copy : need_copy (flash_with (selected 1 0)) ≡ true
unfolding need_copy settings_load settings_pick settings_valid settings_load_one settings_seal
    settings_compute_crc settings_defaults settings_crc32 byte_range bl_bank_trusted bl_image_valid
    is_newer
wants_copy = refl

-- The same through the simulated part's reads.
sample_wants_copy : (works : Bool) → need_copy (memory (sim works) sample) ≡ true
unfolding need_copy settings_load settings_pick settings_valid settings_load_one settings_seal
    settings_compute_crc settings_defaults settings_crc32 byte_range bl_bank_trusted bl_image_valid
    is_newer
sample_wants_copy works = refl

load_bank-sim :
    (bank : ℕ) (m : Machine Bytes) → bank < 2 → (bl_load_bank (sim true) bank m).0 ≡ true
unfolding bl_load_bank
load_bank-sim bank m h = ground (
  arith,
  flash_copy_region-works (sim true) (sim-IsFlash true) sim-Works 5 (bank_base bank) m.flash
      (omega arith) (omega arith),
)

load_bank-broken : (bl_load_bank (sim false) (bank_of (sim false) sample) sample).0 ≡ false
unfolding bl_load_bank flash_copy_region copy_chunks flash_program_write flash_program_begin
    ensure_erased flash_erase_sector settings_load settings_pick settings_valid settings_load_one
    settings_seal settings_compute_crc settings_defaults settings_crc32 byte_range is_newer
load_bank-broken = refl

bl_boot_app_activates_example :
    (m' : Machine Bytes) × (bl_boot_app (sim true) sample
      ≡ jumped
          (le32 (memory (sim true) sample) (bank_base (bank_of (sim true) sample)))
          (le32 (memory (sim true) sample) (bank_base (bank_of (sim true) sample) + 4))
          m')
    × ((k : ℕ)
        → k < app_region_size
        → memory (sim true) m' (app_exec_base + k)
          ≡ memory (sim true) sample (bank_base (bank_of (sim true) sample) + k))
bl_boot_app_activates_example =
    bl_boot_app_activates (sim true) (sim-IsFlash true) sample (sample_wants_copy true) (
      load_bank-sim (bank_of (sim true) sample) sample
        (selected_bank-lt (settings_of (sim true) sample)))

bl_boot_app_retries_example :
    (m' : Machine Bytes) × (bl_boot_app (sim false) sample ≡ returned m')
    × (need_copy (memory (sim false) m') ≡ true)
bl_boot_app_retries_example =
    bl_boot_app_retries (sim false) (sim-IsFlash false) sample (sample_wants_copy false)
      load_bank-broken

main-JumpsIntoExec_example : JumpsIntoExec (sim true) (main (sim true) 0 sample)
main-JumpsIntoExec_example = main-JumpsIntoExec (sim true) 0 sample

main-KeepsBanks_example :
    KeepsBanks (sim true) sample.flash.dev (machine (sim true) (main (sim true) 0 sample)).flash.dev
main-KeepsBanks_example = main-KeepsBanks (sim true) (sim-IsFlash true) 0 sample

-- Bank 1 is selected and recorded as loaded, and what it holds differs from the Exec region.
abbrev stale : Machine Bytes
stale = board (selected 1 1)

-- A memory, and the same after half a copy.
abbrev cut_off : Bytes → Bytes
cut_off m a = if leb app_exec_base a && ltb a 0x08030000 then 0 else m a

cut_off_lem :
    (m : Bytes) (lo hi a : ℕ)
    → (hi ≤ app_exec_base) ⊎ (0x08040000 ≤ lo)
    → lo ≤ a
    → a < hi
    → cut_off m a ≡ m a
cut_off_lem m lo hi a out p q = ground arith

bl_boot_app_once_example :
    need_copy (memory (sim true) (machine (sim true) (bl_boot_app (sim true) sample))) ≡ false
bl_boot_app_once_example =
    bl_boot_app_once (sim true) (sim-IsFlash true) sample (sample_wants_copy true)
      (load_bank-sim (bank_of (sim true) sample) sample
        (selected_bank-lt (settings_of (sim true) sample)))
      (flash_write_settings-works (sim true) (sim-IsFlash true) sim-Works
        (recorded (sim true) sample)
        (bl_load_bank (sim true) (bank_of (sim true) sample) sample).1.flash
        (put8-AreBytes (settings_of (sim true) sample) 17 (bank_of (sim true) sample)
          (settings_load-AreBytes (memory (sim true) sample) (λ a. omega arith))))

-- The same board on the part with a lock, which is locked; the Exec region is in use.
abbrev locked_sample : Machine Part
locked_sample = record {
  flash = record {
    dev = record { memory = flash_with (selected 1 0); is_open = false };
    base = 0;
    sector = 0;
    erased = false;
    fail_phase = 0;
    fail_addr = 0;
    fail_hal = 0;
  };
  hw_inited = false;
}
