-- ===== src/Boot.antt =====
-- firmware/bootloader/src/main.c: which image the bootloader trusts, the copy of the active bank
-- into the Exec region, and the boot decision. The bring-up of clock, UART, pins and the LED
-- pattern are calls of the vendor's library; of `hw_init_once` its flag is kept.
pub mod Image
pub mod Led
pub mod Run
pub mod Activate
pub mod Once
pub mod Works
pub mod Tests
use drdro_mainboard.Base.{
  ℕ, ◌+◌, Bool, true, false, not, ◌&&◌, ◌||◌, Option, none, some, ltb, leb, ◌==◌, if◌then◌else◌,
  le32, Bytes,
}
use drdro_mainboard.Layout.{
  app_exec_base, app_exec_sector, app_region_size, app_region_end, bank_count, bank_base,
  boot_magic, boot_mode_bootloader,
}
use drdro_mainboard.Hal.{FlashHal}
use drdro_mainboard.Crc.{settings_crc32, byte_range}
use drdro_mainboard.Settings.{settings_load, active_bank, loaded_bank, bank_crc, boot_mode, put8}
use drdro_mainboard.Flash.{Session, Result, flash_copy_region, flash_write_settings}

-- `bl_image_valid`: a stack pointer into RAM and an entry point into the Exec region.
unfoldable pub bl_image_valid : Bytes → ℕ → Bool
bl_image_valid m vec_base =
    let sp = le32 m vec_base in
    let pc = le32 m (vec_base + 4) in
    if ltb sp 0x20000000 || ltb 0x20020000 sp
    then false
    else if ltb pc app_exec_base || leb app_region_end pc
    then false
    else true

-- `bl_bank_trusted`; the settings pointer may be null.
unfoldable pub bl_bank_trusted : Bytes → ℕ → Option Bytes → Bool
bl_bank_trusted m bank settings =
    if leb bank_count bank
    then false
    else if not (bl_image_valid m (bank_base bank))
    then false
    else elim settings [
      | none ↦ true
      | some s ↦
          if not (bank_crc s bank == 0)
            && not
                (settings_crc32 (byte_range m (bank_base bank) app_region_size) == bank_crc s bank)
          then false
          else true
    ]

-- The bank that the settings select, 0 where the number is out of range.
abbrev pub selected_bank : Bytes → ℕ
selected_bank s = if ltb (active_bank s) bank_count then active_bank s else 0

-- The test `valid && s.loaded_bank != bank && bl_bank_trusted(bank, &s)`.
unfoldable pub need_copy : Bytes → Bool
need_copy m =
    let (valid, s) = settings_load m in
    valid && not (loaded_bank s == selected_bank s) && bl_bank_trusted m (selected_bank s) (some s)

pub record Machine (D : Type 0) : Type 0 where
  pub flash : Session D
  pub hw_inited : Bool

-- `bl_jump_to_exec` does not return: it hands the stack pointer and the entry point over.
pub data Outcome (D : Type 0) : Type 0 where
  jumped : ℕ → ℕ → Machine D → Outcome D
  returned : Machine D → Outcome D

-- What `main` makes of the boot attempt: where that returns, the CLI starts.
abbrev pub after_boot : {D : Type 0} → Outcome D → Outcome D
after_boot (jumped sp pc m) = jumped sp pc m
after_boot (returned m) = returned (record m { hw_inited = true })

module _ {D : Type 0} (hal : FlashHal D) where
  abbrev pub memory : Machine D → Bytes
  memory m = hal.byte m.flash.dev

  unfoldable pub bl_load_bank : ℕ → Machine D → Bool × Machine D
  bl_load_bank bank m =
      let (rc, f) = flash_copy_region hal app_exec_sector app_exec_base (bank_base bank) m.flash in
      if leb bank_count bank then (false, m) else (rc, record { flash = f; hw_inited = true })

  unfoldable pub bl_jump_to_exec : Machine D → Outcome D
  bl_jump_to_exec m = jumped (le32 (memory m) app_exec_base) (le32 (memory m) (app_exec_base + 4)) m

  -- The second half of `bl_boot_app`: copy the active bank, record it, run it.
  unfoldable pub copy_and_run : Bytes → Machine D → Outcome D
  copy_and_run s m =
      let bank = selected_bank s in
      let (rc, m1) = bl_load_bank bank m in
      let (s', (rc', f)) = flash_write_settings hal (put8 s 17 bank) m1.flash in
      let m2 : Machine D = record m1 { flash = f } in
      if rc
      then (if bl_image_valid (memory m2) app_exec_base then bl_jump_to_exec m2 else returned m2)
      else returned m1

  unfoldable pub bl_boot_app : Machine D → Outcome D
  bl_boot_app m =
      let (valid, s) = settings_load (memory m) in
      if not (need_copy (memory m)) && bl_image_valid (memory m) app_exec_base
      then bl_jump_to_exec m
      else if bl_bank_trusted (memory m) (selected_bank s) (some s)
      then copy_and_run s m
      else returned m

  -- `main` up to the CLI, given the handshake word: a jump, or the CLI on what `returned` holds.
  -- The word is consumed in both cases.
  unfoldable pub main : ℕ → Machine D → Outcome D
  main boot_flag m =
      let (valid, s) = settings_load (memory m) in
      if (boot_flag == boot_magic) || (boot_mode s == boot_mode_bootloader)
      then returned (record m { hw_inited = true })
      else after_boot (bl_boot_app m)
