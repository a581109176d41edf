-- ===== src/SettingsStore.antt =====
-- firmware/app/src/SettingsStore.c: the application's side of the settings slots. A function that
-- returns 0 or -1 returns `true` or `false` beside the device.
pub mod Save
pub mod Commit
pub mod Shared
pub mod Trip
pub mod Tests
use drdro_mainboard.Base.{
  ℕ, zero, suc, ◌+◌, ◌*◌, ◌/◌, Bool, true, false, ltb, leb, ◌==◌, if◌then◌else◌, u32, Bytes, le32,
}
use drdro_mainboard.Layout.{bank_count}
use drdro_mainboard.Hal.{FlashHal}
use drdro_mainboard.Settings.{
  settings_prepare, settings_load, settings_size, slot_base, slot_sector, put8, put32, active_bank,
}

-- What follows only a step that succeeded: `rc == 0 && ...`, and the `break`s.
abbrev pub if_done : {D : Type 0} → Bool × D → (D → Bool × D) → Bool × D
if_done r next = elim r.0 [ true ↦ next r.1 | false ↦ (false, r.1) ]

module _ {D : Type 0} (hal : FlashHal D) where
  -- One round of the loop of `write_slot`.
  unfoldable pub write_word : ℕ → ℕ → D → Bool × D
  write_word a w d =
      let (done, d') = hal.program a w d in
      if done then (if le32 (hal.byte d') a == w then (true, d') else (false, d')) else (false, d')

  -- The loop from word `i` on, with the rounds left.
  unfoldable pub write_words : Bytes → ℕ → ℕ → ℕ → D → Bool × D
  write_words s zero i base d = (true, d)
  write_words s (suc n) i base d =
      if_done (write_word (u32 (base + i * 4)) (le32 s (i * 4)) d)
        λ d'. write_words s n (i + 1) base d'

  unfoldable pub write_slot : ℕ → Bytes → D → Bool × D
  write_slot slot s d =
      let (rc, d') =
        if_done (hal.erase (slot_sector slot) (hal.clear_flags (hal.unlock d)))
          (write_words s (settings_size / 4) 0 (slot_base slot)) in
      (rc, hal.lock d')

  -- The struct comes back renumbered and sealed.
  unfoldable pub save_struct : Bytes → D → Bytes × (Bool × D)
  save_struct s d =
      let (slot, sealed) = settings_prepare (hal.byte d) s in (sealed, write_slot slot sealed d)

  unfoldable pub settings_commit_bank : ℕ → ℕ → D → Bool × D
  settings_commit_bank bank region_crc d =
      let (valid, s) = settings_load (hal.byte d) in
      if leb bank_count bank
      then (false, d)
      else (save_struct (put8 (put32 s (20 + 4 * bank) region_crc) 16 bank) d).1

  unfoldable pub settings_bank_set : ℕ → D → Bool × D
  settings_bank_set bank d =
      let (valid, s) = settings_load (hal.byte d) in
      if leb bank_count bank then (false, d) else (save_struct (put8 s 16 bank) d).1

  unfoldable pub settings_active_bank : D → ℕ
  settings_active_bank d =
      let (valid, s) = settings_load (hal.byte d) in if valid then active_bank s else 0
