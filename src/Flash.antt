-- ===== src/Flash.antt =====
-- firmware/bootloader/src/flash.c: the program session, its checks, the copy of a region and the
-- settings write. A C function that returns 0 or -1 returns `true` or `false` beside the state.
-- A source buffer is a function of the device's state, since the copy reads from the flash itself.
pub mod Copy
pub mod CopyWorks
pub mod Region
pub mod Store
pub mod Word
pub mod Works
mod Tests
use drdro_mainboard.Base.{
  ℕ, zero, suc, ◌+◌, ◌/◌, ◌%◌, ◌^◌, Bool, true, false, ltb, ◌==◌, if◌then◌else◌, u32, Bytes, le32,
}
use drdro_mainboard.Layout.{bl_sector, app_region_size}
use drdro_mainboard.Hal.{FlashHal}
use drdro_mainboard.Settings.{settings_prepare, settings_size, slot_base, slot_sector}

-- The device and the module's variables.
pub record Session (D : Type 0) : Type 0 where
  pub dev : D
  pub base : ℕ
  pub sector : ℕ
  pub erased : Bool
  pub fail_phase : ℕ
  pub fail_addr : ℕ
  pub fail_hal : ℕ

abbrev pub Result : Type 0 → Type 0
Result D = Bool × Session D

-- `if (rc == 0) rc = next(...)`.
abbrev pub and_then : {D : Type 0} → Result D → (Session D → Result D) → Result D
and_then r next = elim r.0 [ true ↦ next r.1 | false ↦ (false, r.1) ]

module _ {D : Type 0} (hal : FlashHal D) where
  -- `*(volatile uint32_t *)addr`.
  abbrev pub read32 : D → ℕ → ℕ
  read32 d a = le32 (hal.byte d) a

  unfoldable pub flash_erase_sector : ℕ → Session D → Result D
  flash_erase_sector n s =
      let (done, d) = hal.erase n s.dev in
      if n == bl_sector then (false, s) else if done then (true, record s { dev = d }) else (
        false,
        record s {
          dev = d;
          fail_phase = 1;
          fail_addr = hal.faulty_sector d;
          fail_hal = hal.get_error d;
        },
      )

  -- One round of `program_verify`: program a word, read it back.
  unfoldable pub program_word : ℕ → ℕ → Session D → Result D
  program_word a w s =
      let (done, d) = hal.program a w s.dev in
      if done
      then (if read32 d a == w
          then (true, record s { dev = d })
          else (false, record s { dev = d; fail_phase = 3; fail_addr = a; fail_hal = read32 d a }))
      else (false, record s { dev = d; fail_phase = 2; fail_addr = a; fail_hal = hal.get_error d })

  -- `program_verify` from byte `i` on, with the rounds left.
  unfoldable pub program_verify : (D → Bytes) → ℕ → ℕ → ℕ → Session D → Result D
  program_verify src zero i addr s = (true, s)
  program_verify src (suc n) i addr s =
      and_then (program_word (u32 (addr + i)) (le32 (src s.dev) i) s)
        λ s'. program_verify src n (i + 4) addr s'

  unfoldable pub flash_program_begin : ℕ → ℕ → Session D → Session D
  flash_program_begin base sector s = record s {
    base = base;
    sector = sector;
    erased = false;
    dev = hal.clear_flags (hal.unlock s.dev);
  }

  unfoldable pub flash_program_end : Session D → Session D
  flash_program_end s = record s { dev = hal.lock s.dev }

  -- The lazy erase of `flash_program_write`.
  unfoldable pub ensure_erased : Session D → Result D
  ensure_erased s =
      if s.erased
      then (true, s)
      else and_then (flash_erase_sector s.sector s) λ s'. (true, record s' { erased = true })

  -- `len` is a number of bytes, so the loop makes `len / 4` rounds once `len & 3` is 0.
  unfoldable pub flash_program_write : ℕ → (D → Bytes) → ℕ → Session D → Result D
  flash_program_write offset src len s =
      let addr = u32 (s.base + offset) in
      let stop = u32 (s.base + app_region_size) in
      let write = and_then (ensure_erased s) (program_verify src (len / 4) 0 addr) in
      if len % 4 == 0
      then (if ltb addr s.base
          then (false, s)
          else if ltb stop (u32 (addr + len))
          then (false, s)
          else write)
      else (false, s)

  -- The loop of `flash_copy_region`, with the chunks left.
  unfoldable pub copy_chunks : ℕ → ℕ → ℕ → Session D → Result D
  copy_chunks src_base zero off s = (true, s)
  copy_chunks src_base (suc n) off s =
      and_then (flash_program_write off (λ d k. hal.byte d (src_base + off + k)) 256 s)
        λ s'. copy_chunks src_base n (off + 256) s'

  -- 512 chunks of 256 bytes are the 128 KB of a region.
  unfoldable pub flash_copy_region : ℕ → ℕ → ℕ → Session D → Result D
  flash_copy_region dst_sector dst_base src_base s =
      let (rc, s') = copy_chunks src_base 512 0 (flash_program_begin dst_base dst_sector s) in
      (rc, flash_program_end s')

  -- The struct that the caller holds comes back sealed and renumbered.
  unfoldable pub flash_write_settings : Bytes → Session D → Bytes × Result D
  flash_write_settings s f =
      let (slot, sealed) = settings_prepare (hal.byte f.dev) s in
      let f' = record f { dev = hal.clear_flags (hal.unlock f.dev) } in
      let (rc, f'') =
        and_then (flash_erase_sector (slot_sector slot) f')
          (program_verify (λ d. sealed) (settings_size / 4) 0 (slot_base slot)) in
      (sealed, (rc, record f'' { dev = hal.lock f''.dev }))
