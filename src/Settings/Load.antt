-- ===== src/Settings/Load.antt =====
-- Loading: what `settings_load_one` takes from an image and what it defaults, and which slot
-- `settings_pick` and `settings_newest_slot` choose.
use drdro_mainboard.Base.{
  ℕ, ◌+◌, ◌^◌, ◌≤◌, ◌<◌, ◌≡◌, refl, true, false, ltb, if◌then◌else◌, u32, Bytes, arith, none, some,
  ◌⊎◌,
}
use drdro_mainboard.Settings.{
  settings_load_one, settings_defaults, used_size, settings_size, settings_pick, settings_load,
  slot_image, settings_newest_slot, is_newer,
}

-- Loading an image that any version of the firmware wrote: every byte that both the image and the
-- reader's struct hold is the image's (the size field is the reader's), and every byte that the
-- image is too short to hold is the default.
pub settings_load_one_prefix :
    (src : Bytes) (i : ℕ)
    → i < settings_size
    → (i < 10) ⊎ (12 ≤ i)
    → settings_load_one src i ≡ (if ltb i (used_size src) then src i else settings_defaults i)
unfolding settings_load_one
settings_load_one_prefix src i h k = ground arith

pub used_size-load_one : (src : Bytes) → used_size (settings_load_one src) ≡ settings_size
unfolding settings_load_one
used_size-load_one src = refl

-- `settings_load` returns the image of the slot that `settings_newest_slot` names, loaded, or the
-- defaults with the code 0 where it names none.
pub settings_load-newest_slot :
    (memory : Bytes)
    → settings_load memory ≡ elim (settings_newest_slot memory) [
      | none ↦ (false, settings_defaults)
      | some n ↦ (true, settings_load_one (slot_image memory n))
    ]
unfolding settings_load settings_pick settings_newest_slot
settings_load-newest_slot memory = ground arith

-- Sequence numbers: the successor of a number is newer than it, and not the other way round,
-- also where the counter wraps.
pub is_newer-suc :
    (a : ℕ) → a < 2 ^ 32 → (is_newer (u32 (a + 1)) a ≡ true) × (is_newer a (u32 (a + 1)) ≡ false)
unfolding is_newer
is_newer-suc a h = (ground arith, ground arith)
