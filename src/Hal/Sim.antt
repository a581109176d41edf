-- ===== src/Hal/Sim.antt =====
-- Simulated flash parts, which show that the documented behaviour can be met: one that accepts all, one
-- on which no erase succeeds, both with the memory as their state, and one that insists on the unlock
-- and on erased words.
use drdro_mainboard.Base.{
  ℕ, ◌^◌, false, le32, if_intro, ◌+◌, ◌%◌, ◌≤◌, ◌<◌, ◌≡◌, ◌⊎◌, Bool, true, ◌&&◌, ltb, leb, ◌==◌,
  if◌then◌else◌, Bytes, byte_of, arith, refl, ap,
}
use drdro_mainboard.Layout.{sector_begin, sector_end}
use drdro_mainboard.Hal.{FlashHal, IsFlash, IsBlank, Works}

abbrev fill : ℕ → ℕ → Bytes → Bytes
fill lo hi d a = if leb lo a && ltb a hi then 255 else d a

abbrev store : ℕ → ℕ → Bytes → Bytes
store at w d a =
    if a == at
    then byte_of w 0
    else if a == at + 1
    then byte_of w 1
    else if a == at + 2
    then byte_of w 2
    else if a == at + 3
    then byte_of w 3
    else d a

-- A part whose erases return `works`.
abbrev pub sim : Bool → FlashHal Bytes
sim works = record {
  byte = λ d a. d a % 256;
  erase = λ n d. (works, fill (sector_begin n) (sector_end n) d);
  program = λ a w d. (true, store a w d);
  unlock = λ d. d;
  clear_flags = λ d. d;
  lock = λ d. d;
  faulty_sector = λ d. 0;
  get_error = λ d. 0;
}

fill_lem : (lo hi : ℕ) (d : Bytes) (a : ℕ) → (a < lo) ⊎ (hi ≤ a) → fill lo hi d a ≡ d a
fill_lem lo hi d a out = ground arith

store_lem : (at w : ℕ) (d : Bytes) (a : ℕ) → (a < at) ⊎ (at + 4 ≤ a) → store at w d a ≡ d a
store_lem at w d a out = ground arith

filled : (lo hi : ℕ) (d : Bytes) (a : ℕ) → lo ≤ a → a < hi → fill lo hi d a ≡ 255
filled lo hi d a p q = ground arith

word_stored : (at w : ℕ) (d : Bytes) → w < 2 ^ 32 → le32 (λ b. store at w d b % 256) at ≡ w
word_stored at w d h = ground arith

pub sim-IsFlash : (works : Bool) → IsFlash (sim works)
sim-IsFlash works = record {
  byte_range = λ d a. omega arith;
  erase_local =
      λ n d a out. ap (λ (b : ℕ). b % 256) (fill_lem (sector_begin n) (sector_end n) d a out);
  program_local = λ a w d b out. ap (λ (b : ℕ). b % 256) (store_lem a w d b out);
  unlock_byte = λ d a. refl;
  clear_byte = λ d a. refl;
  lock_byte = λ d a. refl;
}

-- This part has no lock.
pub sim-Works : Works (sim true)
sim-Works = record {
  unlocked = λ d. true;
  unlock_opens = λ d. refl;
  clear_keeps = λ d. refl;
  erase_keeps = λ n d. refl;
  program_keeps = λ a w d. refl;
  erases = λ n d e h. refl;
  blanks =
      λ n d e h a p q. ap (λ (b : ℕ). b % 256) (filled (sector_begin n) (sector_end n) d a p q);
  programs = λ a w d e blank word h. refl;
  reads_back = λ a w d e blank word h. word_stored a w d h;
}

-- A part with a lock, on which an erase or a program fails while it is locked, and a program fails on a
-- word that is not erased.
pub record Part : Type 0 where
  pub memory : Bytes
  pub is_open : Bool

abbrev is_blank_word : ℕ → Bytes → Bool
is_blank_word a m =
    (m a % 256 == 255)
    && (m (a + 1) % 256 == 255)
    && (m (a + 2) % 256 == 255)
    && (m (a + 3) % 256 == 255)

abbrev pub strict : FlashHal Part
strict = record {
  byte = λ d a. d.memory a % 256;
  erase = λ n d.
      if d.is_open
      then (true, record d { memory = fill (sector_begin n) (sector_end n) d.memory })
      else (false, d);
  program = λ a w d.
      if d.is_open && is_blank_word a d.memory
      then (true, record d { memory = store a w d.memory })
      else (false, d);
  unlock = λ d. record d { is_open = true };
  clear_flags = λ d. d;
  lock = λ d. record d { is_open = false };
  faulty_sector = λ d. 0;
  get_error = λ d. 0;
}

pub strict-IsFlash : IsFlash strict
strict-IsFlash = record {
  byte_range = λ d a. omega arith;
  erase_local = λ n d a out.
      if_intro (λ (r : Bool × Part). r.1.memory a % 256 ≡ d.memory a % 256) d.is_open
        (true, record d { memory = fill (sector_begin n) (sector_end n) d.memory }) (false, d)
        (λ e. ap (λ (b : ℕ). b % 256) (fill_lem (sector_begin n) (sector_end n) d.memory a out))
        (λ e. refl);
  program_local = λ a w d b out.
      if_intro (λ (r : Bool × Part). r.1.memory b % 256 ≡ d.memory b % 256)
        (d.is_open && is_blank_word a d.memory) (true, record d { memory = store a w d.memory })
        (false, d) (λ e. ap (λ (c : ℕ). c % 256) (store_lem a w d.memory b out)) (λ e. refl);
  unlock_byte = λ d a. refl;
  clear_byte = λ d a. refl;
  lock_byte = λ d a. refl;
}

blank_word :
    (a : ℕ) (d : Part)
    → d.is_open ≡ true
    → IsBlank strict a (a + 4) d
    → (d.is_open && is_blank_word a d.memory) ≡ true
blank_word a d e blank = ground (
  arith,
  blank a (omega arith) (omega arith),
  blank (a + 1) (omega arith) (omega arith),
  blank (a + 2) (omega arith) (omega arith),
  blank (a + 3) (omega arith) (omega arith),
)

pub strict-Works : Works strict
strict-Works = record {
  unlocked = λ d. d.is_open;
  unlock_opens = λ d. refl;
  clear_keeps = λ d. refl;
  erase_keeps = λ n d.
      if_intro (λ (r : Bool × Part). r.1.is_open ≡ d.is_open) d.is_open
        (true, record d { memory = fill (sector_begin n) (sector_end n) d.memory }) (false, d)
        (λ e. refl) (λ e. refl);
  program_keeps = λ a w d.
      if_intro (λ (r : Bool × Part). r.1.is_open ≡ d.is_open)
        (d.is_open && is_blank_word a d.memory) (true, record d { memory = store a w d.memory })
        (false, d) (λ e. refl) (λ e. refl);
  erases = λ n d e h. rw e refl;
  blanks = λ n d e h a p q.
      rw e (ap (λ (b : ℕ). b % 256) (filled (sector_begin n) (sector_end n) d.memory a p q));
  programs = λ a w d e blank word h. rw (blank_word a d e blank) refl;
  reads_back = λ a w d e blank word h. rw (blank_word a d e blank) (word_stored a w d.memory h);
}
