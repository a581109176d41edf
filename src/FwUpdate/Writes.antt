-- ===== src/FwUpdate/Writes.antt =====
-- The application's flash session against the bootloader's.
use drdro_mainboard.Base.{
  ℕ, zero, suc, ◌+◌, ◌/◌, ◌≡◌, refl, ap, ◌∙◌, Bool, true, false, u32, Bytes, le32, arith,
}
use drdro_mainboard.Hal.{FlashHal}
use drdro_mainboard.Flash.{
  Session, Result, and_then, program_word, program_verify, flash_erase_sector, ensure_erased,
  flash_program_begin, flash_program_end, flash_program_write,
}
use drdro_mainboard.FwUpdate.{
  FwFlash, if_ok, fw_erase_sector, fw_flash_begin, fw_flash_end, fw_write_word, fw_write_words,
  fw_ensure_erased, fw_flash_write,
}

-- A session of the bootloader without its failure variables.
abbrev pub forget : {D : Type 0} → Session D → FwFlash D
forget s = record { dev = s.dev; base = s.base; sector = s.sector; erased = s.erased }

abbrev pub outcome : {D : Type 0} → Result D → Bool × FwFlash D
outcome r = (r.0, forget r.1)

if_ok-outcome :
    {D : Type 0} (q : Bool × FwFlash D) (r : Result D) (k : FwFlash D → Bool × FwFlash D)
    (next : Session D → Result D)
    → q ≡ outcome r
    → ((f : Session D) → k (forget f) ≡ outcome (next f))
    → if_ok q k ≡ outcome (and_then r next)
if_ok-outcome {D = D} q (true, f) k next e h = ap (λ (p : Bool × FwFlash D). if_ok p k) e ∙ h f
if_ok-outcome {D = D} q (false, f) k next e h = ap (λ (p : Bool × FwFlash D). if_ok p k) e

module _ {D : Type 0} (hal : FlashHal D) where
  write_word_lem :
      (a w : ℕ) (s : Session D)
      → fw_write_word hal a w (forget s) ≡ outcome (program_word hal a w s)
  unfolding fw_write_word program_word
  write_word_lem a w s = ground arith

  write_words_lem :
      (src : Bytes) (n i addr : ℕ) (s : Session D)
      → fw_write_words hal src n i addr (forget s)
        ≡ outcome (program_verify hal (λ d. src) n i addr s)
  unfolding fw_write_words program_verify
  write_words_lem src zero i addr s = refl
  write_words_lem src (suc n) i addr s =
      if_ok-outcome (fw_write_word hal (u32 (addr + i)) (le32 src i) (forget s))
        (program_word hal (u32 (addr + i)) (le32 src i) s) (fw_write_words hal src n (i + 4) addr)
        (program_verify hal (λ d. src) n (i + 4) addr)
        (write_word_lem (u32 (addr + i)) (le32 src i) s) (write_words_lem src n (i + 4) addr)

  erase_sector_lem :
      (n : ℕ) (s : Session D)
      → fw_erase_sector hal n (forget s) ≡ outcome (flash_erase_sector hal n s)
  unfolding fw_erase_sector flash_erase_sector
  erase_sector_lem n s = ground arith

  ensure_erased_lem :
      (s : Session D) → fw_ensure_erased hal (forget s) ≡ outcome (ensure_erased hal s)
  unfolding fw_ensure_erased ensure_erased
  ensure_erased_lem s = ground (
    arith,
    if_ok-outcome (fw_erase_sector hal s.sector (forget s)) (flash_erase_sector hal s.sector s)
        (λ f'. (true, record f' { erased = true })) (λ s'. (true, record s' { erased = true }))
        (erase_sector_lem s.sector s) (λ f. refl),
  )

  -- The flash write of the application and that of the bootloader are the same: on the same session
  -- and the same bytes they accept and refuse alike and leave the same device and session, on every
  -- outcome of every flash operation.
  pub fw_flash_write-flash_program_write :
      (offset : ℕ) (src : Bytes) (len : ℕ) (s : Session D)
      → fw_flash_write hal offset src len (forget s)
        ≡ outcome (flash_program_write hal offset (λ d. src) len s)
  unfolding fw_flash_write flash_program_write
  fw_flash_write-flash_program_write offset src len s =
      let addr = u32 (s.base + offset) in
      ground (
        arith,
        if_ok-outcome (fw_ensure_erased hal (forget s)) (ensure_erased hal s)
            (fw_write_words hal src (len / 4) 0 addr)
            (program_verify hal (λ d. src) (len / 4) 0 addr) (ensure_erased_lem s)
            (write_words_lem src (len / 4) 0 addr),
      )

  -- Opening and closing a session, likewise.
  pub fw_flash_begin-flash_program_begin :
      (base sector : ℕ) (s : Session D)
      → (fw_flash_begin hal base sector (forget s) ≡ forget (flash_program_begin hal base sector s))
        × (fw_flash_end hal (forget s) ≡ forget (flash_program_end hal s))
  unfolding fw_flash_begin flash_program_begin fw_flash_end flash_program_end
  fw_flash_begin-flash_program_begin base sector s = (refl, refl)
