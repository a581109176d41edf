-- ===== src/SettingsStore/Save.antt =====
-- The application's save against the bootloader's: the same flash operations in the same order.
use drdro_mainboard.Base.{
  ℕ, zero, suc, ◌+◌, ◌*◌, ◌/◌, ◌≡◌, refl, ap, ◌∙◌, Bool, true, false, u32, Bytes, le32, arith,
}
use drdro_mainboard.Hal.{FlashHal}
use drdro_mainboard.Settings.{settings_prepare, settings_size, slot_base, slot_sector}
use drdro_mainboard.Flash.{
  Session, Result, and_then, program_word, program_verify, flash_erase_sector, flash_write_settings,
}
use drdro_mainboard.SettingsStore.{if_done, write_word, write_words, write_slot, save_struct}

-- What a result shows but for the module's variables.
abbrev outcome : {D : Type 0} → Result D → Bool × D
outcome r = (r.0, r.1.dev)

if_done-outcome :
    {D : Type 0} (q : Bool × D) (r : Result D) (k : D → Bool × D) (next : Session D → Result D)
    → q ≡ outcome r
    → ((f : Session D) → k f.dev ≡ outcome (next f))
    → if_done q k ≡ outcome (and_then r next)
if_done-outcome {D = D} q (true, f) k next e h = ap (λ (p : Bool × D). if_done p k) e ∙ h f
if_done-outcome {D = D} q (false, f) k next e h = ap (λ (p : Bool × D). if_done p k) e

module _ {D : Type 0} (hal : FlashHal D) where
  write_word-program_word :
      (a w : ℕ) (f : Session D) → write_word hal a w f.dev ≡ outcome (program_word hal a w f)
  unfolding write_word program_word
  write_word-program_word a w f = ground arith

  write_words-program_verify :
      (s : Bytes) (n i base : ℕ) (f : Session D)
      → write_words hal s n i base f.dev ≡ outcome (program_verify hal (λ d. s) n (i * 4) base f)
  unfolding write_words program_verify
  write_words-program_verify s zero i base f = refl
  write_words-program_verify s (suc n) i base f =
      if_done-outcome (write_word hal (u32 (base + i * 4)) (le32 s (i * 4)) f.dev)
        (program_word hal (u32 (base + i * 4)) (le32 s (i * 4)) f)
        (write_words hal s n (i + 1) base) (program_verify hal (λ d. s) n (i * 4 + 4) base)
        (write_word-program_word (u32 (base + i * 4)) (le32 s (i * 4)) f)
        λ f'.
          write_words-program_verify s n (i + 1) base f'
          ∙ ap (λ (j : ℕ). outcome (program_verify hal (λ d. s) n j base f')) {x = (i + 1) * 4}
              {y = i * 4 + 4} (omega arith)

  erase-outcome :
      (slot : ℕ) (f : Session D)
      → hal.erase (slot_sector slot) f.dev ≡ outcome (flash_erase_sector hal (slot_sector slot) f)
  unfolding flash_erase_sector
  erase-outcome slot f = ground arith

  abbrev written : ℕ → Bytes → Session D → Result D
  written slot s f =
      and_then (flash_erase_sector hal (slot_sector slot) f)
        (program_verify hal (λ d. s) (settings_size / 4) 0 (slot_base slot))

  write_slot_lem :
      (slot : ℕ) (s : Bytes) (f : Session D)
      → let r = written slot s (record f { dev = hal.clear_flags (hal.unlock f.dev) }) in
        write_slot hal slot s f.dev ≡ (r.0, hal.lock r.1.dev)
  unfolding write_slot
  write_slot_lem slot s f =
      ap (λ (q : Bool × D). (q.0, hal.lock q.1))
        (if_done-outcome (hal.erase (slot_sector slot) opened.dev)
          (flash_erase_sector hal (slot_sector slot) opened)
          (write_words hal s (settings_size / 4) 0 (slot_base slot))
          (program_verify hal (λ d. s) (settings_size / 4) 0 (slot_base slot))
          (erase-outcome slot opened)
          (write_words-program_verify s (settings_size / 4) 0 (slot_base slot)))
    where
      opened : Session D
      opened = record f { dev = hal.clear_flags (hal.unlock f.dev) }

  -- The application's save and the bootloader's are the same: from the same device they leave the
  -- same device, the same struct and the same return code, on every outcome of every flash
  -- operation.
  pub save_struct-flash_write_settings :
      (s : Bytes) (f : Session D)
      → let r = flash_write_settings hal s f in save_struct hal s f.dev ≡ (r.0, (r.1.0, r.1.1.dev))
  unfolding save_struct flash_write_settings
  save_struct-flash_write_settings s f =
      ap (λ (q : Bool × D). ((settings_prepare (hal.byte f.dev) s).1, q))
        (write_slot_lem (settings_prepare (hal.byte f.dev) s).0
          (settings_prepare (hal.byte f.dev) s).1 f)
