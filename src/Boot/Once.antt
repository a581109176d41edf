-- ===== src/Boot/Once.antt =====
-- A bank is copied once: the boot after a recorded copy runs what stands in the Exec region.
use drdro_mainboard.Base.{
  ℕ, ◌≤◌, ◌<◌, ◌≡◌, refl, ap, ◌∙◌, true, false, Bool-cases, inl, inr, Bytes, arith,
}
use drdro_mainboard.Layout.{app_exec_base}
use drdro_mainboard.Hal.{FlashHal, IsFlash}
use drdro_mainboard.Settings.{settings_load, loaded_bank, put8}
use drdro_mainboard.Settings.Range.{put8-AreBytes, settings_load-AreBytes}
use drdro_mainboard.Flash.{flash_write_settings}
use drdro_mainboard.Flash.Store.{flash_write_settings-load}
use drdro_mainboard.Boot.{
  Machine, Outcome, memory, need_copy, selected_bank, bl_image_valid, bl_load_bank, bl_jump_to_exec,
  copy_and_run, bl_boot_app,
}
use drdro_mainboard.Boot.Run.{machine}
use drdro_mainboard.Boot.Image.{selected_bank-lt}
use drdro_mainboard.Boot.Activate.{settings_of, bank_of, boot_copy, saved}

-- A struct that selects the bank it records as loaded.
settled : (s t : Bytes) → t 16 ≡ s 16 → t 17 ≡ selected_bank s → loaded_bank t ≡ selected_bank t
settled s t active loaded = rw active loaded

settled-need_copy :
    (m : Bytes)
    → loaded_bank (settings_load m).1 ≡ selected_bank (settings_load m).1
    → need_copy m ≡ false
unfolding need_copy
settled-need_copy m h = ground arith

module _ {D : Type 0} (hal : FlashHal D) where
  abbrev pub recorded : Machine D → Bytes
  recorded m = put8 (settings_of hal m) 17 (bank_of hal m)

  machine-copy_and_run :
      (m : Machine D)
      → (bl_load_bank hal (bank_of hal m) m).0 ≡ true
      → machine hal (copy_and_run hal (settings_of hal m) m) ≡ saved hal m
  unfolding copy_and_run bl_jump_to_exec
  machine-copy_and_run m done =
      elim (Bool-cases (bl_image_valid (memory hal (saved hal m)) app_exec_base)) [
        | inl v ↦ rw (done, v) refl
        | inr v ↦ rw (done, v) refl
      ]

module _ {D : Type 0} (hal : FlashHal D) (laws : IsFlash hal) where
  -- Where a copy is due and both the copy and the record of it return 0, the boot after that finds
  -- no copy due.
  pub bl_boot_app_once :
      (m : Machine D)
      → need_copy (memory hal m) ≡ true
      → (bl_load_bank hal (bank_of hal m) m).0 ≡ true
      → (flash_write_settings hal (recorded hal m) (bl_load_bank hal (bank_of hal m) m).1.flash).1.0
        ≡ true
      → need_copy (memory hal (machine hal (bl_boot_app hal m))) ≡ false
  bl_boot_app_once m needed done kept =
      ap (λ (o : Outcome D). need_copy (memory hal (machine hal o))) (boot_copy hal m needed)
      ∙ ap (λ (n : Machine D). need_copy (memory hal n)) (machine-copy_and_run hal m done)
      ∙ settled-need_copy (memory hal (saved hal m)) (
          settled (settings_of hal m) t (loaded.1 16 (omega arith) (omega arith))
            (loaded.1 17 (omega arith) (omega arith) ∙ in_byte))
    where
      t : Bytes
      t = (settings_load (memory hal (saved hal m))).1

      loaded :
          ((settings_load (memory hal (saved hal m))).0 ≡ true)
          × ((i : ℕ) → 16 ≤ i → i < 140 → t i ≡ recorded hal m i)
      loaded =
          flash_write_settings-load hal laws (recorded hal m)
            (bl_load_bank hal (bank_of hal m) m).1.flash
            (put8-AreBytes (settings_of hal m) 17 (bank_of hal m)
              (settings_load-AreBytes (memory hal m) (laws.byte_range m.flash.dev)))
            kept

      in_byte : recorded hal m 17 ≡ bank_of hal m
      in_byte = omega (arith, selected_bank-lt (settings_of hal m))
