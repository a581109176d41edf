-- ===== src/Flash/CopyWorks.antt =====
-- On a part without a defect, the copy of a region and the save of the settings succeed.
use drdro_mainboard.Base.{
  ℕ, zero, suc, ◌+◌, ◌*◌, ◌%◌, ◌≤◌, ◌≡◌, refl, ◌∙◌, true, Bytes, IsByte, arith,
}
use drdro_mainboard.Layout.{app_region_size, sector_begin, sector_end}
use drdro_mainboard.Hal.{FlashHal, IsFlash, Works}
use drdro_mainboard.Flash.{
  Session, flash_erase_sector, flash_program_write, flash_program_begin, copy_chunks,
  flash_copy_region, flash_write_settings,
}
use drdro_mainboard.Flash.Works.{
  Prepared, begin-Prepared, and_then-both, program_verify-works, flash_program_write-works,
}
use drdro_mainboard.Settings.{settings_prepare, slot_sector, slot_base}
use drdro_mainboard.Settings.Save.{settings_prepare-AreBytes}

-- A slot of the settings is the start of one of the sectors 1 and 2.
abbrev SlotPlace : ℕ → Type 0
SlotPlace k =
    (1 ≤ slot_sector k)
    × (slot_sector k ≤ 2)
    × (sector_begin (slot_sector k) ≡ slot_base k)
    × (slot_base k + 140 ≤ sector_end (slot_sector k))
    × (slot_base k % 4 ≡ 0)
    × (0x08000000 ≤ slot_base k)
    × (slot_base k ≤ 0x08008000)

slot_lem : (k : ℕ) → SlotPlace k
slot_lem k = ground arith

module _ {D : Type 0} (hal : FlashHal D) (laws : IsFlash hal) (works : Works hal) where
  copy_chunks-works :
      (src n off : ℕ) (s : Session D)
      → Prepared hal laws works off s
      → off + 256 * n ≤ app_region_size
      → (copy_chunks hal src n off s).0 ≡ true
  unfolding copy_chunks
  copy_chunks-works src zero off s p h = refl
  copy_chunks-works src (suc n) off s p h =
      let chunk = λ (d : D) (k : ℕ). hal.byte d (src + off + k) in
      let r = flash_program_write hal off chunk 256 s in
      let first =
        flash_program_write-works hal laws works off chunk 256 s p refl (omega arith)
          (λ d j. laws.byte_range d (src + off + j)) in
      and_then-both r (copy_chunks hal src n (off + 256)) first.0
        (copy_chunks-works src n (off + 256) r.1 first.1 (omega arith))

  pub flash_copy_region-works :
      (sector src : ℕ) (s : Session D)
      → 5 ≤ sector
      → sector ≤ 7
      → (flash_copy_region hal sector (sector_begin sector) src s).0 ≡ true
  unfolding flash_copy_region
  flash_copy_region-works sector src s lo hi =
      copy_chunks-works src 512 0 (flash_program_begin hal (sector_begin sector) sector s)
        (begin-Prepared hal laws works sector s lo hi) (omega arith)

  pub flash_write_settings-works :
      (s : Bytes) (f : Session D)
      → ((i : ℕ) → IsByte (s i))
      → (flash_write_settings hal s f).1.0 ≡ true
  unfolding flash_write_settings flash_erase_sector
  flash_write_settings-works s f bytes = rw fresh (
      program_verify-works hal laws works (λ d. sealed) 35 0 base f''
        (works.erase_keeps n f'.dev ∙ opened)
        (λ a lo hi.
          works.blanks n f'.dev opened (omega (arith, slot)) a (omega (arith, slot))
            (omega (arith, slot)))
        (omega (arith, slot)) (omega (arith, slot)) (omega (arith, slot))
        (λ d j. settings_prepare-AreBytes m s bytes j))
    where
      m : Bytes
      m = hal.byte f.dev

      k : ℕ
      k = (settings_prepare m s).0

      n : ℕ
      n = slot_sector k

      base : ℕ
      base = slot_base k

      sealed : Bytes
      sealed = (settings_prepare m s).1

      f' : Session D
      f' = record f { dev = hal.clear_flags (hal.unlock f.dev) }

      f'' : Session D
      f'' = record f' { dev = (hal.erase n f'.dev).1 }

      slot : SlotPlace k
      slot = slot_lem k

      opened : works.unlocked f'.dev ≡ true
      opened = works.clear_keeps (hal.unlock f.dev) ∙ works.unlock_opens f.dev

      fresh : flash_erase_sector hal n f' ≡ (true, f'')
      fresh = ground (arith, slot, works.erases n f'.dev opened (omega (arith, slot)))
