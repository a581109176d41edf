-- ===== src/Boot/Run.antt =====
-- The boot decision: what it hands control to, what it writes, and when the Exec region is the
-- active bank.
use drdro_mainboard.Base.{
  ℕ, ◌+◌, ◌≤◌, ◌<◌, ◌≡◌, refl, ap, ◌∙◌, sym, true, not, ◌&&◌, ◌||◌, some, ◌==◌, if◌then◌else◌, le32,
  Bytes, arith, inl, inr, ◌⊎◌, if_intro, &&-split, subst,
}
use drdro_mainboard.Layout.{
  app_exec_base, app_exec_sector, app_region_end, bank_base, boot_magic, boot_mode_bootloader,
}
use drdro_mainboard.Hal.{FlashHal, IsFlash, SameOutside}
use drdro_mainboard.Settings.{settings_load, boot_mode, put8}
use drdro_mainboard.Flash.{Session, flash_write_settings}
use drdro_mainboard.Flash.Copy.{flash_copy_region-SameOutside}
use drdro_mainboard.Flash.Store.{flash_write_settings-SameOutside}
use drdro_mainboard.Boot.{
  bl_image_valid, bl_bank_trusted, need_copy, selected_bank, Machine, Outcome, jumped, returned,
  memory, bl_load_bank, bl_jump_to_exec, copy_and_run, bl_boot_app, main, after_boot,
}
use drdro_mainboard.Boot.Image.{bl_image_valid-bounds}

module _ {D : Type 0} (hal : FlashHal D) where
  -- Control goes to an entry point in the Exec region, with the stack in RAM, both as the Exec
  -- region holds them.
  abbrev pub JumpsIntoExec : Outcome D → Type 0
  JumpsIntoExec (jumped sp pc m) =
      (sp ≡ le32 (memory hal m) app_exec_base)
      × (pc ≡ le32 (memory hal m) (app_exec_base + 4))
      × (0x20000000 ≤ sp)
      × (sp ≤ 0x20020000)
      × (app_exec_base ≤ pc)
      × (pc < app_region_end)
  JumpsIntoExec (returned m) = Unit {0}

  -- The machine that an outcome leaves.
  abbrev pub machine : Outcome D → Machine D
  machine (jumped sp pc m) = m
  machine (returned m) = m

  -- The memory outside the settings slots and the Exec region: the bootloader itself, the reserved
  -- sectors and the two banks.
  abbrev pub KeepsBanks : D → D → Type 0
  KeepsBanks d d' =
      (a : ℕ)
      → (a < 0x08004000) ⊎ (0x0800C000 ≤ a) × (a < app_exec_base) ⊎ (app_region_end ≤ a)
      → hal.byte d' a ≡ hal.byte d a

  JumpsIntoExec-jump :
      (m : Machine D)
      → bl_image_valid (memory hal m) app_exec_base ≡ true
      → JumpsIntoExec (bl_jump_to_exec hal m)
  unfolding bl_jump_to_exec
  JumpsIntoExec-jump m h =
      let b = bl_image_valid-bounds (memory hal m) app_exec_base h in
      (refl, refl, b.0, b.1, b.2, b.3)

  JumpsIntoExec-copy : (s : Bytes) (m : Machine D) → JumpsIntoExec (copy_and_run hal s m)
  unfolding copy_and_run
  JumpsIntoExec-copy s m =
      let bank = selected_bank s in
      let m1 = (bl_load_bank hal bank m).1 in
      let f = (flash_write_settings hal (put8 s 17 bank) m1.flash).1.1 in
      let m2 : Machine D = record m1 { flash = f } in
      if_intro JumpsIntoExec (bl_load_bank hal bank m).0
        (if bl_image_valid (memory hal m2) app_exec_base
          then bl_jump_to_exec hal m2
          else returned m2)
        (returned m1)
        (λ _.
          if_intro JumpsIntoExec (bl_image_valid (memory hal m2) app_exec_base)
            (bl_jump_to_exec hal m2) (returned m2) (JumpsIntoExec-jump m2) (λ _. tt))
        (λ _. tt)

  JumpsIntoExec-boot : (m : Machine D) → JumpsIntoExec (bl_boot_app hal m)
  unfolding bl_boot_app
  JumpsIntoExec-boot m =
      let s = (settings_load (memory hal m)).1 in
      let trusted = bl_bank_trusted (memory hal m) (selected_bank s) (some s) in
      let rest : Outcome D = if trusted then copy_and_run hal s m else returned m in
      let ready = not (need_copy (memory hal m)) && bl_image_valid (memory hal m) app_exec_base in
      if_intro JumpsIntoExec ready (bl_jump_to_exec hal m) rest
        (λ h.
          JumpsIntoExec-jump m
            (&&-split (not (need_copy (memory hal m))) (bl_image_valid (memory hal m) app_exec_base)
              h).1)
        (λ _.
          if_intro JumpsIntoExec trusted (copy_and_run hal s m) (returned m)
            (λ _. JumpsIntoExec-copy s m) (λ _. tt))

  main-cases :
      (boot_flag : ℕ) (m : Machine D)
      → (main hal boot_flag m ≡ returned (record m { hw_inited = true }))
        ⊎ (main hal boot_flag m ≡ after_boot (bl_boot_app hal m))
  unfolding main
  main-cases boot_flag m =
      let s = (settings_load (memory hal m)).1 in
      let cli : Outcome D = returned (record m { hw_inited = true }) in
      let boot : Outcome D = after_boot (bl_boot_app hal m) in
      if_intro (λ (o : Outcome D). (o ≡ cli) ⊎ (o ≡ boot))
        ((boot_flag == boot_magic) || (boot_mode s == boot_mode_bootloader)) cli boot
        (λ _. inl refl) (λ _. inr refl)

  JumpsIntoExec-after : (o : Outcome D) → JumpsIntoExec o → JumpsIntoExec (after_boot o)
  JumpsIntoExec-after (jumped sp pc m) h = h
  JumpsIntoExec-after (returned m) h = h

  -- Whatever the handshake word, the settings and the banks hold, the bootloader hands control only
  -- to an image in the Exec region whose stack pointer lies in RAM and whose entry point lies in
  -- the region, both read from the region's first two words.
  pub main-JumpsIntoExec : (boot_flag : ℕ) (m : Machine D) → JumpsIntoExec (main hal boot_flag m)
  main-JumpsIntoExec boot_flag m = elim (main-cases boot_flag m) [
    | inl e ↦ subst JumpsIntoExec (sym e) tt
    | inr e ↦
        subst JumpsIntoExec (sym e) (JumpsIntoExec-after (bl_boot_app hal m) (JumpsIntoExec-boot m))
  ]

module _ {D : Type 0} (hal : FlashHal D) (laws : IsFlash hal) where
  pub load_bank-SameOutside :
      (bank : ℕ) (m : Machine D)
      → SameOutside hal app_exec_base app_region_end m.flash.dev
          (bl_load_bank hal bank m).1.flash.dev
  unfolding bl_load_bank
  load_bank-SameOutside bank m a out = ground (
    arith,
    flash_copy_region-SameOutside hal laws app_exec_sector (bank_base bank) m.flash (omega arith)
        (omega arith) a out,
  )

  KeepsBanks-copy :
      (s : Bytes) (m : Machine D)
      → KeepsBanks hal m.flash.dev (machine hal (copy_and_run hal s m)).flash.dev
  unfolding copy_and_run bl_jump_to_exec
  KeepsBanks-copy s m a out = ground (arith, copied, saved)
    where
      m1 : Machine D
      m1 = (bl_load_bank hal (selected_bank s) m).1

      copied : hal.byte m1.flash.dev a ≡ hal.byte m.flash.dev a
      copied = load_bank-SameOutside (selected_bank s) m a (omega arith)

      saved :
          hal.byte (flash_write_settings hal (put8 s 17 (selected_bank s)) m1.flash).1.1.dev a
          ≡ hal.byte m1.flash.dev a
      saved =
          flash_write_settings-SameOutside hal laws (put8 s 17 (selected_bank s)) m1.flash a
            (omega arith)

  KeepsBanks-boot :
      (m : Machine D) → KeepsBanks hal m.flash.dev (machine hal (bl_boot_app hal m)).flash.dev
  unfolding bl_boot_app bl_jump_to_exec
  KeepsBanks-boot m a out = ground (arith, KeepsBanks-copy (settings_load (memory hal m)).1 m a out)

  machine-after : (o : Outcome D) → (machine hal (after_boot o)).flash ≡ (machine hal o).flash
  machine-after (jumped sp pc m) = refl
  machine-after (returned m) = refl

  -- No boot, finished or failed, changes the bootloader, the reserved sectors or a bank.
  pub main-KeepsBanks :
      (boot_flag : ℕ) (m : Machine D)
      → KeepsBanks hal m.flash.dev (machine hal (main hal boot_flag m)).flash.dev
  main-KeepsBanks boot_flag m a out = elim (main-cases hal boot_flag m) [
    | inl e ↦ ap (λ (o : Outcome D). hal.byte (machine hal o).flash.dev a) e
    | inr e ↦
        ap (λ (o : Outcome D). hal.byte (machine hal o).flash.dev a) e
        ∙ ap (λ (f : Session D). hal.byte f.dev a) (machine-after (bl_boot_app hal m))
        ∙ KeepsBanks-boot m a out
  ]
