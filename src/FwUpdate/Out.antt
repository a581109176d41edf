-- ===== src/FwUpdate/Out.antt =====
-- What the words that a session has written out leave in the bank.
use drdro_mainboard.Base.{
  ℕ, zero, suc, ◌+◌, ◌-◌, ◌%◌, ◌≤◌, ◌<◌, ◌≡◌, ◌⊎◌, inl, inr, refl, ap, ◌∙◌, sym, Bool, true, u32,
  List, [], ◌∷◌, ◌++◌, length, get_or, All, IsByte, length-append, get_or-append_left,
  get_or-append_right, arith,
}
use native.Mathlib.Decide.{dec_lt}
use drdro_mainboard.Layout.{app_region_size, bank_count, bank_base, bank_sector}
use drdro_mainboard.Hal.{FlashHal, IsFlash}
use drdro_mainboard.Flash.{Session, Result, flash_program_write}
use drdro_mainboard.Flash.Region.{OnRegion, Wrote, flash_program_write-Wrote}
use drdro_mainboard.FwUpdate.{FwFlash, fw_flash_write}
use drdro_mainboard.FwUpdate.Writes.{forget, fw_flash_write-flash_program_write}
use drdro_mainboard.FwUpdate.Session.{FwSession, listed, fw_write_out}

pub listed-IsByte : (w : List ℕ) → All IsByte w → (i : ℕ) → IsByte (listed w i)
listed-IsByte [] h i = omega arith
listed-IsByte (b ∷ w) h zero = h.0
listed-IsByte (b ∷ w) h (suc i) = listed-IsByte w h.1 i

-- The bootloader's session for the same flash.
abbrev pub lift : {D : Type 0} → FwFlash D → Session D
lift f = record {
  dev = f.dev;
  base = f.base;
  sector = f.sector;
  erased = f.erased;
  fail_phase = 0;
  fail_addr = 0;
  fail_hal = 0;
}

-- All but the flash, the pending bytes and their count.
abbrev pub Kept : {D : Type 0} → FwSession D → FwSession D → Type 0
Kept s t =
    (t.size ≡ s.size)
    × (t.received ≡ s.received)
    × (t.crc_run ≡ s.crc_run)
    × (t.crc_want ≡ s.crc_want)
    × (t.state ≡ s.state)
    × (t.bank ≡ s.bank)

module _ {D : Type 0} (hal : FlashHal D) where
  -- The bytes `out` stand at the start of the session's bank.
  pub record Flashed (s : FwSession D) (out : List ℕ) : Type 0 where
    pub bank_low : s.bank < bank_count
    pub at_base : s.flash.base ≡ bank_base s.bank
    pub at_sector : s.flash.sector ≡ bank_sector s.bank
    pub count : s.written ≡ length out
    pub words : length out % 4 ≡ 0
    pub within : length out ≤ app_region_size
    pub erased : (length out ≡ 0) ⊎ (s.flash.erased ≡ true)
    pub content :
        (k : ℕ) → k < length out → hal.byte s.flash.dev (bank_base s.bank + k) ≡ get_or out k 0

module _ {D : Type 0} (hal : FlashHal D) (laws : IsFlash hal) where
  abbrev written_out : List ℕ → FwSession D → Bool × FwFlash D
  written_out w s = fw_flash_write hal s.written (listed w) (length w) s.flash

  pub fw_write_out-true :
      (w : List ℕ) (s : FwSession D)
      → (fw_write_out hal w s).0 ≡ true
      → ((written_out w s).0 ≡ true)
        × (fw_write_out hal w s ≡ (
          true,
          record s { flash = (written_out w s).1; written = u32 (s.written + length w) },
        ))
  unfolding fw_write_out
  fw_write_out-true w s done = ground arith

  pub Flashed-OnRegion :
      (s : FwSession D) (out : List ℕ) → Flashed hal s out → OnRegion (lift s.flash)
  Flashed-OnRegion s out h = record {
    sector_high = ground (arith, h.at_sector);
    sector_low = ground (arith, h.at_sector);
    at_base = ground (arith, h.at_base, h.at_sector, h.bank_low);
  }

  -- The write of the bootloader that a write of the session is.
  abbrev twin : List ℕ → FwSession D → Result D
  twin w s = flash_program_write hal s.written (λ d. listed w) (length w) (lift s.flash)

  twin-Wrote :
      (w out : List ℕ) (s : FwSession D)
      → Flashed hal s out
      → All IsByte w
      → length out + length w ≤ app_region_size
      → (written_out w s).0 ≡ true
      → Wrote hal s.written (λ d. listed w) (length w) (lift s.flash) (twin w s).1
  twin-Wrote w out s h bytes fits done =
      flash_program_write-Wrote hal laws s.written (λ d. listed w) (length w) (lift s.flash)
        (Flashed-OnRegion s out h) (omega (arith, h.count)) (omega arith)
        (record { steady = λ d d' same k lt. refl; yields_bytes = λ d k. listed-IsByte w bytes k })
        (ap (λ (r : Bool × FwFlash D). r.0)
            (sym (
              fw_flash_write-flash_program_write hal s.written (listed w) (length w)
                (lift s.flash)))
          ∙ done)

  -- A write that succeeds appends its bytes.
  fw_write_out-Flashed :
      (w out : List ℕ) (s : FwSession D)
      → Flashed hal s out
      → All IsByte w
      → length out + length w ≤ app_region_size
      → (fw_write_out hal w s).0 ≡ true
      → Flashed hal (fw_write_out hal w s).1 (out ++ w)
  fw_write_out-Flashed w out s h bytes fits done = rw split.1 (record {
    bank_low = h.bank_low;
    at_base = ap (λ (f : FwFlash D). f.base) twins ∙ wrote.same_base ∙ h.at_base;
    at_sector = ap (λ (f : FwFlash D). f.sector) twins ∙ wrote.same_sector ∙ h.at_sector;
    count = omega (arith, h.count, long, h.within);
    words = omega (arith, h.words, long, wrote.aligned);
    within = omega (arith, long);
    erased = inr (ap (λ (f : FwFlash D). f.erased) twins ∙ wrote.now_erased);
    content = λ k lt.
        ap (λ (f : FwFlash D). hal.byte f.dev (bank_base s.bank + k)) twins
        ∙ elim (dec_lt k (length out)) [
          | yes low ↦ kept k low ∙ h.content k low ∙ sym (get_or-append_left out w k 0 low)
          | no high ↦ fresh k (omega arith) (omega (arith, long))
        ];
  })
    where
      split :
          ((written_out w s).0 ≡ true)
          × (fw_write_out hal w s ≡ (
            true,
            record s { flash = (written_out w s).1; written = u32 (s.written + length w) },
          ))
      split = fw_write_out-true w s done

      wrote : Wrote hal s.written (λ d. listed w) (length w) (lift s.flash) (twin w s).1
      wrote = twin-Wrote w out s h bytes fits split.0

      twins : (written_out w s).1 ≡ forget (twin w s).1
      twins =
          ap (λ (r : Bool × FwFlash D). r.1)
            (fw_flash_write-flash_program_write hal s.written (listed w) (length w) (lift s.flash))

      long : length (out ++ w) ≡ length out + length w
      long = length-append out w

      kept :
          (k : ℕ)
          → k < length out
          → hal.byte (twin w s).1.dev (bank_base s.bank + k)
            ≡ hal.byte s.flash.dev (bank_base s.bank + k)
      kept k low = elim h.erased [
        | inl none ↦ absurd (omega (arith, none))
        | inr e ↦ wrote.local e (bank_base s.bank + k) (inl (omega (arith, h.at_base, h.count)))
      ]

      fresh :
          (k : ℕ)
          → length out ≤ k
          → k < length out + length w
          → hal.byte (twin w s).1.dev (bank_base s.bank + k) ≡ get_or (out ++ w) k 0
      fresh k high lt =
          ap (hal.byte (twin w s).1.dev) {x = bank_base s.bank + k}
            {y = s.flash.base + s.written + (k - length out)} (omega (arith, h.at_base, h.count))
          ∙ wrote.content (k - length out) (omega arith)
          ∙ sym (get_or-append_right out w (k - length out) 0)
          ∙ ap (λ (j : ℕ). get_or (out ++ w) j 0) {x = length out + (k - length out)} {y = k}
              (omega arith)

  pub fw_write_out_lem :
      (w out : List ℕ) (s : FwSession D)
      → Flashed hal s out
      → All IsByte w
      → length out + length w ≤ app_region_size
      → (fw_write_out hal w s).0 ≡ true
      → Flashed hal (fw_write_out hal w s).1 (out ++ w)
        × Kept s (fw_write_out hal w s).1
        × ((fw_write_out hal w s).1.pend ≡ s.pend)
  fw_write_out_lem w out s h bytes fits done =
      (fw_write_out-Flashed w out s h bytes fits done, kept, same)
    where
      e :
          fw_write_out hal w s
          ≡ (true, record s { flash = (written_out w s).1; written = u32 (s.written + length w) })
      e = (fw_write_out-true w s done).1

      kept : Kept s (fw_write_out hal w s).1
      kept = rw e (refl, refl, refl, refl, refl, refl)

      same : (fw_write_out hal w s).1.pend ≡ s.pend
      same = rw e refl
