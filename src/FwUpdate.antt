-- ===== src/FwUpdate.antt =====
-- firmware/app/src/FwUpdate.c: the flash session of the firmware update over Ethernet; the update
-- session is in Session. A function that returns 0 or -1 returns `true` or `false` beside the session.
pub mod Writes
pub mod Session
pub mod Out
pub mod Fill
pub mod Stream
pub mod Receive
pub mod Request
pub mod Works
pub mod Complete
pub mod Commit
mod Tests
use drdro_mainboard.Base.{
  ℕ, zero, suc, ◌+◌, ◌-◌, ◌*◌, ◌/◌, ◌%◌, ◌^◌, Bool, true, false, not, ◌&&◌, ◌||◌, ltb, leb, ◌==◌,
  if◌then◌else◌, u32, Bytes, le32, List, [], ◌∷◌, ◌++◌, length, take, drop, get_or, replicate,
}
use drdro_mainboard.Layout.{bl_sector, app_region_size, bank_count, bank_base, bank_sector}
use drdro_mainboard.Hal.{FlashHal}
use drdro_mainboard.Crc.{crc32_loop, complement}

-- The variables of the flash session.
pub record FwFlash (D : Type 0) : Type 0 where
  pub dev : D
  pub base : ℕ
  pub sector : ℕ
  pub erased : Bool

-- What follows only a step that succeeded: `if (...) return -1`.
abbrev pub if_ok :
    {D : Type 0} → Bool × FwFlash D → (FwFlash D → Bool × FwFlash D) → Bool × FwFlash D
if_ok r next = elim r.0 [ true ↦ next r.1 | false ↦ (false, r.1) ]

module _ {D : Type 0} (hal : FlashHal D) where
  unfoldable pub fw_erase_sector : ℕ → FwFlash D → Bool × FwFlash D
  fw_erase_sector n f =
      let (done, d) = hal.erase n f.dev in
      if n == bl_sector then (false, f) else (done, record f { dev = d })

  unfoldable pub fw_flash_begin : ℕ → ℕ → FwFlash D → FwFlash D
  fw_flash_begin base sector f = record f {
    base = base;
    sector = sector;
    erased = false;
    dev = hal.clear_flags (hal.unlock f.dev);
  }

  unfoldable pub fw_flash_end : FwFlash D → FwFlash D
  fw_flash_end f = record f { dev = hal.lock f.dev }

  -- One round of the loop of `fwFlashWrite`.
  unfoldable pub fw_write_word : ℕ → ℕ → FwFlash D → Bool × FwFlash D
  fw_write_word a w f =
      let (done, d) = hal.program a w f.dev in
      if done
      then (if le32 (hal.byte d) a == w
          then (true, record f { dev = d })
          else (false, record f { dev = d }))
      else (false, record f { dev = d })

  -- The loop from byte `i` on, with the rounds left.
  unfoldable pub fw_write_words : Bytes → ℕ → ℕ → ℕ → FwFlash D → Bool × FwFlash D
  fw_write_words src zero i addr f = (true, f)
  fw_write_words src (suc n) i addr f =
      if_ok (fw_write_word (u32 (addr + i)) (le32 src i) f)
        λ f'. fw_write_words src n (i + 4) addr f'

  -- The lazy erase: the first write erases.
  unfoldable pub fw_ensure_erased : FwFlash D → Bool × FwFlash D
  fw_ensure_erased f =
      if f.erased
      then (true, f)
      else if_ok (fw_erase_sector f.sector f) λ f'. (true, record f' { erased = true })

  unfoldable pub fw_flash_write : ℕ → Bytes → ℕ → FwFlash D → Bool × FwFlash D
  fw_flash_write offset src len f =
      let addr = u32 (f.base + offset) in
      let stop = u32 (f.base + app_region_size) in
      let write = if_ok (fw_ensure_erased f) (fw_write_words src (len / 4) 0 addr) in
      if len % 4 == 0
      then (if ltb addr f.base
          then (false, f)
          else if ltb stop (u32 (addr + len))
          then (false, f)
          else write)
      else (false, f)
