-- ===== src/Hal.antt =====
-- The vendor's flash driver (the STM32 HAL, which is not part of the repository) as an interface.
-- `D` is the device's state. `erase` is HAL_FLASHEx_Erase on one sector, `program` is
-- HAL_FLASH_Program with a word; their flag is the return code, `true` for HAL_OK.
pub mod Sim
use drdro_mainboard.Base.{◌^◌, ◌%◌, le32, ℕ, ◌+◌, ◌≤◌, ◌<◌, ◌≡◌, ◌⊎◌, Bool, true, IsByte}
use drdro_mainboard.Layout.{sector_begin, sector_end}

pub record FlashHal (D : Type 0) : Type 0 where
  -- The memory-mapped read of one byte.
  pub byte : D → ℕ → ℕ
  pub erase : ℕ → D → Bool × D
  pub program : ℕ → ℕ → D → Bool × D
  pub unlock : D → D
  pub clear_flags : D → D
  pub lock : D → D
  -- The faulty sector that a failed erase reports, and HAL_FLASH_GetError.
  pub faulty_sector : D → ℕ
  pub get_error : D → ℕ

-- Nothing outside the addresses from `lo` up to `hi` differs between two states.
abbrev pub SameOutside : {D : Type 0} → FlashHal D → ℕ → ℕ → D → D → Type 0
SameOutside hal lo hi d d' = (a : ℕ) → (a < lo) ⊎ (hi ≤ a) → hal.byte d' a ≡ hal.byte d a

-- What the reference manual and the HAL document: a byte is a byte; an erase, done or failed,
-- touches its sector alone; a word program touches its four bytes alone; the lock, the unlock and
-- the flags touch no memory. That an erase or a program works is not assumed.
pub record IsFlash {D : Type 0} (hal : FlashHal D) : Type 0 where
  pub byte_range : (d : D) (a : ℕ) → IsByte (hal.byte d a)
  pub erase_local :
      (n : ℕ) (d : D) → SameOutside hal (sector_begin n) (sector_end n) d (hal.erase n d).1
  pub program_local : (a w : ℕ) (d : D) → SameOutside hal a (a + 4) d (hal.program a w d).1
  pub unlock_byte : (d : D) (a : ℕ) → hal.byte (hal.unlock d) a ≡ hal.byte d a
  pub clear_byte : (d : D) (a : ℕ) → hal.byte (hal.clear_flags d) a ≡ hal.byte d a
  pub lock_byte : (d : D) (a : ℕ) → hal.byte (hal.lock d) a ≡ hal.byte d a

-- The bytes from `lo` up to `hi` read as erased.
abbrev pub IsBlank : {D : Type 0} → FlashHal D → ℕ → ℕ → D → Type 0
IsBlank hal lo hi d = (a : ℕ) → lo ≤ a → a < hi → hal.byte d a ≡ 0xFF

-- The address of an aligned word of the 512 KB flash.
abbrev pub IsWordAddress : ℕ → Type 0
IsWordAddress a = (a % 4 ≡ 0) × (0x08000000 ≤ a) × (a + 4 ≤ 0x08080000)

-- A part without a defect, as the reference manual has it. A ghost flag says whether the control
-- register is unlocked: the unlock sets it, and clearing the flags, an erase and a program keep it. Only
-- an unlocked part erases one of its sectors 0 to 7, which then reads as erased, and programs an aligned
-- word, provided its four bytes are erased; the word then reads back. Of a locked part, or of a word that
-- is not erased, nothing is assumed. No theorem on what the firmware never does rests on it.
pub record Works {D : Type 0} (hal : FlashHal D) : Type 0 where
  pub unlocked : D → Bool
  pub unlock_opens : (d : D) → unlocked (hal.unlock d) ≡ true
  pub clear_keeps : (d : D) → unlocked (hal.clear_flags d) ≡ unlocked d
  pub erase_keeps : (n : ℕ) (d : D) → unlocked (hal.erase n d).1 ≡ unlocked d
  pub program_keeps : (a w : ℕ) (d : D) → unlocked (hal.program a w d).1 ≡ unlocked d
  pub erases : (n : ℕ) (d : D) → unlocked d ≡ true → n ≤ 7 → (hal.erase n d).0 ≡ true
  pub blanks :
      (n : ℕ) (d : D)
      → unlocked d ≡ true
      → n ≤ 7
      → IsBlank hal (sector_begin n) (sector_end n) (hal.erase n d).1
  pub programs :
      (a w : ℕ) (d : D)
      → unlocked d ≡ true
      → IsBlank hal a (a + 4) d
      → IsWordAddress a
      → w < 2 ^ 32
      → (hal.program a w d).0 ≡ true
  pub reads_back :
      (a w : ℕ) (d : D)
      → unlocked d ≡ true
      → IsBlank hal a (a + 4) d
      → IsWordAddress a
      → w < 2 ^ 32
      → le32 (hal.byte (hal.program a w d).1) a ≡ w
