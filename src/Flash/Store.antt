-- ===== src/Flash/Store.antt =====
-- `flash_write_settings`: the settings after a save, and after a save that failed.
use drdro_mainboard.Base.{
  ℕ, ◌+◌, ◌/◌, ◌≤◌, ◌<◌, ◌≡◌, refl, ap, ◌∙◌, sym, true, Bytes, arith, IsByte,
}
use drdro_mainboard.Layout.{sector_begin, sector_end}
use drdro_mainboard.Hal.{FlashHal, IsFlash, SameOutside}
use drdro_mainboard.Flash.{
  Session, Result, and_then, flash_erase_sector, program_verify, flash_write_settings,
}
use drdro_mainboard.Flash.Word.{
  and_then-SameOutside, and_then-true, program_verify-SameOutside, program_verify-ok,
}
use drdro_mainboard.Flash.Region.{flash_erase_sector-SameOutside}
use drdro_mainboard.Settings.{settings_load, slot_base, slot_sector, settings_size}
use drdro_mainboard.Settings.Newest.{OnlySlot, Holds, AreBytes, slot_of, sealed_of}
use drdro_mainboard.Settings.Save.{
  Survives, settings_prepare-AreBytes, settings_load-save, settings_load-interrupted,
}

-- The slots lie at the start of their sectors, which are 16 KB each.
pub slot_bounds :
    (n : ℕ)
    → (sector_begin (slot_sector n) ≡ slot_base n)
      × (sector_end (slot_sector n) ≡ slot_base n + 0x4000)
      × (slot_base n ≤ 0x08008000)
slot_bounds n = ground arith

module _ {D : Type 0} (hal : FlashHal D) (laws : IsFlash hal) where
  abbrev memory : Session D → Bytes
  memory f = hal.byte f.dev

  abbrev opened : Session D → Session D
  opened f = record f { dev = hal.clear_flags (hal.unlock f.dev) }

  -- The erase and the program loop of a save of `sealed` into slot `n`.
  abbrev write : ℕ → Bytes → Session D → Result D
  write n sealed f =
      and_then (flash_erase_sector hal (slot_sector n) f)
        (program_verify hal (λ d. sealed) (settings_size / 4) 0 (slot_base n))

  write-SameOutside :
      (n : ℕ) (sealed : Bytes) (f : Session D)
      → SameOutside hal
          (sector_begin (slot_sector n))
          (sector_end (slot_sector n))
          f.dev
          (write n sealed f).1.dev
  write-SameOutside n sealed f =
      and_then-SameOutside hal (sector_begin (slot_sector n)) (sector_end (slot_sector n)) f.dev
        (flash_erase_sector hal (slot_sector n) f)
        (program_verify hal (λ d. sealed) 35 0 (slot_base n))
        (flash_erase_sector-SameOutside hal laws (slot_sector n) f)
        (λ a out.
          program_verify-SameOutside hal laws (λ d. sealed) 35 0 (slot_base n)
            (flash_erase_sector hal (slot_sector n) f).1 (omega (arith, slot_bounds n)) a
            (omega (arith, slot_bounds n)))

  write-Holds :
      (n : ℕ) (sealed : Bytes) (f : Session D)
      → ((i : ℕ) → IsByte (sealed i))
      → (write n sealed f).0 ≡ true
      → Holds (memory (write n sealed f).1) n sealed
  write-Holds n sealed f bytes done i h =
      ap (λ (r : Result D). hal.byte r.1.dev (slot_base n + i)) split.1
      ∙ ap
          (hal.byte
            (program_verify hal (λ d. sealed) 35 0 (slot_base n)
              (flash_erase_sector hal (slot_sector n) f).1).1.dev)
          {x = slot_base n + i} {y = slot_base n + 0 + i} (omega arith)
      ∙ program_verify-ok hal laws (λ d. sealed) settings_size 35 0 (slot_base n)
          (flash_erase_sector hal (slot_sector n) f).1 (omega (arith, slot_bounds n)) (omega arith)
          (record { steady = λ d d' same k lt. refl; yields_bytes = λ d k. bytes k })
          (ap (λ (r : Result D). r.0) (sym split.1) ∙ done) i (omega arith)
      ∙ ap sealed {x = 0 + i} {y = i} (omega arith)
    where
      split :
          ((flash_erase_sector hal (slot_sector n) f).0 ≡ true)
          × (write n sealed f
              ≡ program_verify hal
                  (λ d. sealed)
                  35
                  0
                  (slot_base n)
                  (flash_erase_sector hal (slot_sector n) f).1)
      split =
          and_then-true (flash_erase_sector hal (slot_sector n) f)
            (program_verify hal (λ d. sealed) 35 0 (slot_base n)) done

  -- The memory after the whole write differs from the one before in the slot's sector alone.
  flash_write_settings-OnlySlot :
      (s : Bytes) (f : Session D)
      → OnlySlot (slot_of (memory f) s) (memory f) (memory (flash_write_settings hal s f).1.1)
  unfolding flash_write_settings
  flash_write_settings-OnlySlot s f a out =
      laws.lock_byte _ a
      ∙ write-SameOutside (slot_of (memory f) s) (sealed_of (memory f) s) (opened f) a out
      ∙ laws.clear_byte (hal.unlock f.dev) a
      ∙ laws.unlock_byte f.dev a

  flash_write_settings-Holds :
      (s : Bytes) (f : Session D)
      → AreBytes s
      → (flash_write_settings hal s f).1.0 ≡ true
      → Holds
          (memory (flash_write_settings hal s f).1.1)
          (slot_of (memory f) s)
          (sealed_of (memory f) s)
  unfolding flash_write_settings
  flash_write_settings-Holds s f bytes done i h =
      laws.lock_byte _ (slot_base (slot_of (memory f) s) + i)
      ∙ write-Holds (slot_of (memory f) s) (sealed_of (memory f) s) (opened f)
          (settings_prepare-AreBytes (memory f) s bytes) done i h

  -- A settings save that returns 0 is what the next load returns: the code 1, and from offset 16 on
  -- (all but the header and the counter) every byte that the caller gave.
  pub flash_write_settings-load :
      (s : Bytes) (f : Session D)
      → AreBytes s
      → (flash_write_settings hal s f).1.0 ≡ true
      → let m' = hal.byte (flash_write_settings hal s f).1.1.dev in
        ((settings_load m').0 ≡ true)
        × ((i : ℕ) → 16 ≤ i → i < settings_size → (settings_load m').1 i ≡ s i)
  flash_write_settings-load s f bytes done =
      let both =
        settings_load-save (memory f) (memory (flash_write_settings hal s f).1.1) s
          (λ a. laws.byte_range f.dev a) (flash_write_settings-OnlySlot s f)
          (flash_write_settings-Holds s f bytes done) in
      (both.0, both.2)

  -- A settings save that fails anywhere, in the erase, in a program or in the verification, loses
  -- nothing: where a load found settings before, the next load finds settings, either byte for byte
  -- the same or those of an image in the written slot that passes the CRC.
  pub flash_write_settings-Survives :
      (s : Bytes) (f : Session D)
      → (settings_load (hal.byte f.dev)).0 ≡ true
      → Survives
          (hal.byte f.dev)
          (hal.byte (flash_write_settings hal s f).1.1.dev)
          (slot_of (hal.byte f.dev) s)
  flash_write_settings-Survives s f found =
      settings_load-interrupted (memory f) (memory (flash_write_settings hal s f).1.1) s
        (flash_write_settings-OnlySlot s f) found

  -- A settings save changes the two settings sectors at most.
  pub flash_write_settings-SameOutside :
      (s : Bytes) (f : Session D)
      → SameOutside hal 0x08004000 0x0800C000 f.dev (flash_write_settings hal s f).1.1.dev
  flash_write_settings-SameOutside s f a out =
      flash_write_settings-OnlySlot s f a (ground (arith, slot_bounds (slot_of (memory f) s)))
