-- ===== src/Boot/Activate.antt =====
-- Copy-on-activate: the boot after a bank was selected.
use drdro_mainboard.Base.{
  ℕ, ◌+◌, ◌<◌, ◌≡◌, refl, ap, ap₂, ◌∙◌, true, false, some, leb, le32, le32_ext, Bytes, arith,
  Bool-cases, inl, inr,
}
use mathlib.Core.Bool.{false≢true}
use drdro_mainboard.Layout.{app_exec_base, app_exec_sector, app_region_size, bank_count, bank_base}
use drdro_mainboard.Hal.{FlashHal, IsFlash}
use drdro_mainboard.Settings.{settings_load, loaded_bank, put8}
use drdro_mainboard.Flash.{flash_copy_region, flash_write_settings}
use drdro_mainboard.Flash.Copy.{flash_copy_region-exact}
use drdro_mainboard.Flash.Store.{flash_write_settings-SameOutside}
use drdro_mainboard.Boot.{
  bl_image_valid, bl_bank_trusted, need_copy, selected_bank, Machine, jumped, returned, memory,
  bl_load_bank, bl_jump_to_exec, copy_and_run, bl_boot_app,
}
use drdro_mainboard.Boot.Image.{
  bl_image_valid-ext, bl_bank_trusted-valid, bank_base_range, need_copy-ext,
}
use drdro_mainboard.Boot.Run.{load_bank-SameOutside}

module _ {D : Type 0} (hal : FlashHal D) where
  abbrev pub settings_of : Machine D → Bytes
  settings_of m = (settings_load (memory hal m)).1

  abbrev pub bank_of : Machine D → ℕ
  bank_of m = selected_bank (settings_of m)

  need_copy-trusted :
      (m : Machine D)
      → need_copy (memory hal m) ≡ true
      → bl_bank_trusted (memory hal m) (bank_of m) (some (settings_of m)) ≡ true
  unfolding need_copy
  need_copy-trusted m h = ground arith

  -- Where a copy is needed the boot is the copy.
  pub boot_copy :
      (m : Machine D)
      → need_copy (memory hal m) ≡ true
      → bl_boot_app hal m ≡ copy_and_run hal (settings_of m) m
  unfolding bl_boot_app
  boot_copy m h = rw (h, need_copy-trusted m h) refl

  need_copy-loaded :
      (m : Machine D) → loaded_bank (settings_of m) ≡ bank_of m → need_copy (memory hal m) ≡ false
  unfolding need_copy
  need_copy-loaded m same = ground arith

  -- Where the settings record the selected bank as loaded, the boot runs what stands in the Exec
  -- region, if its vectors are sane, and neither reads nor writes anything else: an image that was
  -- stored into that bank since is not run.
  pub bl_boot_app_loaded :
      (m : Machine D)
      → loaded_bank (settings_of m) ≡ bank_of m
      → bl_image_valid (memory hal m) app_exec_base ≡ true
      → bl_boot_app hal m
        ≡ jumped (le32 (memory hal m) app_exec_base) (le32 (memory hal m) (app_exec_base + 4)) m
  unfolding bl_boot_app bl_jump_to_exec
  bl_boot_app_loaded m same valid = rw (need_copy-loaded m same, valid) refl

  -- The machine after the copy and the record of it.
  abbrev pub saved : Machine D → Machine D
  saved m =
      let m1 = (bl_load_bank hal (bank_of m) m).1 in
      record m1 {
        flash = (flash_write_settings hal (put8 (settings_of m) 17 (bank_of m)) m1.flash).1.1;
      }

  copy_and_run-ok :
      (m : Machine D)
      → (bl_load_bank hal (bank_of m) m).0 ≡ true
      → bl_image_valid (memory hal (saved m)) app_exec_base ≡ true
      → copy_and_run hal (settings_of m) m
        ≡ jumped
            (le32 (memory hal (saved m)) app_exec_base)
            (le32 (memory hal (saved m)) (app_exec_base + 4))
            (saved m)
  unfolding copy_and_run bl_jump_to_exec
  copy_and_run-ok m done valid = rw (done, valid) refl

  copy_and_run-failed :
      (m : Machine D)
      → (bl_load_bank hal (bank_of m) m).0 ≡ false
      → copy_and_run hal (settings_of m) m ≡ returned (bl_load_bank hal (bank_of m) m).1
  unfolding copy_and_run
  copy_and_run-failed m failed = rw failed refl

module _ {D : Type 0} (hal : FlashHal D) (laws : IsFlash hal) where
  load_bank-exact :
      (bank : ℕ) (m : Machine D)
      → (bl_load_bank hal bank m).0 ≡ true
      → (k : ℕ) → k < app_region_size
      → hal.byte (bl_load_bank hal bank m).1.flash.dev (app_exec_base + k)
        ≡ hal.byte m.flash.dev (bank_base bank + k)
  unfolding bl_load_bank
  load_bank-exact bank m done k h = elim (Bool-cases (leb bank_count bank)) [
    | inl high ↦ absurd (false≢true (done_if high))
    | inr low ↦ rw low (
        flash_copy_region-exact hal laws app_exec_sector (bank_base bank) m.flash (omega arith)
          (omega arith) (inr (omega (arith, bank_base_range bank))) (copy_done low) k h)
  ]
    where
      done_if : leb bank_count bank ≡ true → false ≡ true
      done_if high = rw high at done

      copy_done :
          leb bank_count bank ≡ false
          → (flash_copy_region hal app_exec_sector app_exec_base (bank_base bank) m.flash).0 ≡ true
      copy_done low = rw low at done

  -- A selected bank that is trusted and not the one recorded as loaded is activated: if the copy
  -- returns 0, the bootloader jumps to that bank's own vectors, with all 131072 bytes of the Exec
  -- region equal to the bank's.
  pub bl_boot_app_activates :
      (m : Machine D)
      → need_copy (memory hal m) ≡ true
      → (bl_load_bank hal (bank_of hal m) m).0 ≡ true
      → (m' : Machine D) × (bl_boot_app hal m
          ≡ jumped
              (le32 (memory hal m) (bank_base (bank_of hal m)))
              (le32 (memory hal m) (bank_base (bank_of hal m) + 4))
              m')
        × ((k : ℕ)
            → k < app_region_size
            → memory hal m' (app_exec_base + k) ≡ memory hal m (bank_base (bank_of hal m) + k))
  bl_boot_app_activates m needed done =
      (m2, boot_copy hal m needed ∙ run ∙ ap₂ (λ sp pc. jumped sp pc m2) sp pc, exact)
    where
      bank : ℕ
      bank = bank_of hal m

      m1 : Machine D
      m1 = (bl_load_bank hal bank m).1

      m2 : Machine D
      m2 = saved hal m

      exact :
          (k : ℕ)
          → k < app_region_size
          → memory hal m2 (app_exec_base + k) ≡ memory hal m (bank_base bank + k)
      exact k h =
          flash_write_settings-SameOutside hal laws (put8 (settings_of hal m) 17 bank) m1.flash
            (app_exec_base + k) (omega arith)
          ∙ load_bank-exact bank m done k h

      valid : bl_image_valid (memory hal m2) app_exec_base ≡ true
      valid =
          bl_image_valid-ext (memory hal m) (memory hal m2) (bank_base bank) app_exec_base
            (λ k h. exact k (omega arith))
          ∙ (bl_bank_trusted-valid (memory hal m) (settings_of hal m) bank
              (need_copy-trusted hal m needed)).1

      run :
          copy_and_run hal (settings_of hal m) m
          ≡ jumped
              (le32 (memory hal m2) app_exec_base)
              (le32 (memory hal m2) (app_exec_base + 4))
              m2
      run = copy_and_run-ok hal m done valid

      sp : le32 (memory hal m2) app_exec_base ≡ le32 (memory hal m) (bank_base bank)
      sp =
          le32_ext (memory hal m) (memory hal m2) (bank_base bank) app_exec_base
            (λ k h. exact k (omega arith))

      pc : le32 (memory hal m2) (app_exec_base + 4) ≡ le32 (memory hal m) (bank_base bank + 4)
      pc = le32_ext (memory hal m) (memory hal m2) (bank_base bank + 4) (app_exec_base + 4) λ k h.
          ap (memory hal m2) {x = app_exec_base + 4 + k} {y = app_exec_base + (4 + k)} (omega arith)
          ∙ exact (4 + k) (omega arith)
          ∙ ap (memory hal m) {x = bank_base bank + (4 + k)} {y = bank_base bank + 4 + k}
              (omega arith)

  -- A copy that fails anywhere is never run: the boot returns to the CLI, and the next boot wants
  -- the same copy again, whatever the failed one left in the Exec region.
  pub bl_boot_app_retries :
      (m : Machine D)
      → need_copy (memory hal m) ≡ true
      → (bl_load_bank hal (bank_of hal m) m).0 ≡ false
      → (m' : Machine D) × (bl_boot_app hal m ≡ returned m') × (need_copy (memory hal m') ≡ true)
  bl_boot_app_retries m needed failed = (
    (bl_load_bank hal (bank_of hal m) m).1,
    boot_copy hal m needed ∙ copy_and_run-failed hal m failed,
    need_copy-ext (memory hal m) (memory hal (bl_load_bank hal (bank_of hal m) m).1)
          (λ a p q. load_bank-SameOutside hal laws (bank_of hal m) m a (inl (omega arith)))
          (λ a p q. load_bank-SameOutside hal laws (bank_of hal m) m a (inr (omega arith)))
        ∙ needed,
  )
