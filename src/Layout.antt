-- ===== src/Layout.antt =====
-- firmware/shared/Bootloader.h: the contract between the application and the bootloader.
-- Flash sectors of the F411: 4 x 16K, 64K, 3 x 128K from 0x08000000.
use drdro_mainboard.Base.{ℕ, ◌+◌, ◌-◌, ◌*◌, ◌==◌, ltb, if◌then◌else◌}

abbrev pub bl_sector : ℕ
bl_sector = 0

abbrev pub settings_base : ℕ
settings_base = 0x08004000

abbrev pub settings_sector : ℕ
settings_sector = 1

abbrev pub app_exec_base : ℕ
app_exec_base = 0x08020000

abbrev pub app_exec_sector : ℕ
app_exec_sector = 5

abbrev pub app_region_size : ℕ
app_region_size = 0x20000

abbrev pub app_region_end : ℕ
app_region_end = 0x08040000

abbrev pub bank_count : ℕ
bank_count = 2

abbrev pub bank0_base : ℕ
bank0_base = 0x08040000

abbrev pub bank1_base : ℕ
bank1_base = 0x08060000

-- `BANK_BASE(n)` and `BANK_SECTOR(n)`.
abbrev pub bank_base : ℕ → ℕ
bank_base n = if n == 0 then bank0_base else bank1_base

abbrev pub bank_sector : ℕ → ℕ
bank_sector n = if n == 0 then 6 else 7

abbrev pub boot_mode_app : ℕ
boot_mode_app = 0

abbrev pub boot_mode_bootloader : ℕ
boot_mode_bootloader = 1

abbrev pub boot_magic : ℕ
boot_magic = 0xB00710AD

-- Where a sector begins and ends, by the flash layout that the header lists.
abbrev pub sector_begin : ℕ → ℕ
sector_begin n =
    if ltb n 5
    then (if n == 4 then 0x08010000 else 0x08000000 + 0x4000 * n)
    else 0x08020000 + 0x20000 * (n - 5)

abbrev pub sector_end : ℕ → ℕ
sector_end n =
    if ltb n 5
    then (if n == 4 then 0x08020000 else 0x08000000 + 0x4000 * n + 0x4000)
    else 0x08020000 + 0x20000 * (n - 5) + 0x20000
