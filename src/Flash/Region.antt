-- ===== src/Flash/Region.antt =====
-- `flash_erase_sector` and `flash_program_write`: what a write into a region leaves in the flash, and
-- what it never touches.
use drdro_mainboard.Base.{
  ℕ, ◌+◌, ◌*◌, ◌/◌, ◌%◌, ◌^◌, ◌≤◌, ◌<◌, ◌≡◌, refl, ap, ◌∙◌, sym, subst, true, false, u32, Bytes,
  arith, ◌⊎◌, inl, inr,
}
use drdro_mainboard.Layout.{app_region_size, sector_begin, sector_end}
use drdro_mainboard.Hal.{FlashHal, IsFlash, SameOutside}
use drdro_mainboard.Flash.{
  Session, Result, and_then, program_verify, flash_erase_sector, ensure_erased, flash_program_write,
}
use drdro_mainboard.Flash.Word.{
  IsSource, IsSource-narrow, SameOutside-widen, and_then-SameOutside, and_then-true,
  program_verify-SameOutside, program_verify-ok, program_verify-session,
}
use mathlib.Core.Bool.{false≢true}

module _ {D : Type 0} where
  -- A session on the 128 KB region that a sector is: its base is the sector's.
  pub record OnRegion (s : Session D) : Type 0 where
    pub sector_high : 5 ≤ s.sector
    pub sector_low : s.sector ≤ 7
    pub at_base : s.base ≡ sector_begin s.sector

  pub region_bounds :
      (s : Session D)
      → OnRegion s
      → (sector_begin s.sector ≡ s.base)
        × (sector_end s.sector ≡ s.base + app_region_size)
        × (s.base ≤ 0x08060000)
  region_bounds s on = ground arith

module _ {D : Type 0} (hal : FlashHal D) where
  -- A write that returns 0 was aligned and inside the region, and its bytes read back. Once the
  -- sector is erased a write changes nothing but its own span.
  pub record Wrote (offset : ℕ) (src : D → Bytes) (len : ℕ) (s s' : Session D) : Type 0 where
    pub aligned : len % 4 ≡ 0
    pub inside : offset + len ≤ app_region_size
    pub same_base : s'.base ≡ s.base
    pub same_sector : s'.sector ≡ s.sector
    pub now_erased : s'.erased ≡ true
    pub local :
        s.erased ≡ true → SameOutside hal (s.base + offset) (s.base + offset + len) s.dev s'.dev
    pub region : SameOutside hal (sector_begin s.sector) (sector_end s.sector) s.dev s'.dev
    pub content : (k : ℕ) → k < len → hal.byte s'.dev (s.base + offset + k) ≡ src s.dev k

module _ {D : Type 0} (hal : FlashHal D) (laws : IsFlash hal) where
  pub flash_erase_sector-SameOutside :
      (n : ℕ) (s : Session D)
      → SameOutside hal (sector_begin n) (sector_end n) s.dev (flash_erase_sector hal n s).1.dev
  unfolding flash_erase_sector
  flash_erase_sector-SameOutside n s a out = ground (arith, laws.erase_local n s.dev a out)

  ensure_erased-SameOutside :
      (s : Session D)
      → SameOutside hal
          (sector_begin s.sector)
          (sector_end s.sector)
          s.dev
          (ensure_erased hal s).1.dev
  unfolding ensure_erased
  ensure_erased-SameOutside s a out =
      ground (arith, flash_erase_sector-SameOutside s.sector s a out)

  -- A session keeps its target; after a write that succeeded the sector is erased.
  pub ensure_erased-session :
      (s : Session D)
      → let r = ensure_erased hal s in
        (r.1.base ≡ s.base) × (r.1.sector ≡ s.sector) × (r.0 ≡ true → r.1.erased ≡ true)
  unfolding ensure_erased flash_erase_sector
  ensure_erased-session s = ground arith

  pub ensure_erased-done : (s : Session D) → s.erased ≡ true → ensure_erased hal s ≡ (true, s)
  unfolding ensure_erased
  ensure_erased-done s e = rw e refl

  -- Once the checks have passed, a write is the erase, if it is due, and the program loop.
  record Accepted (offset len : ℕ) (s : Session D) : Type 0 where
    aligned : len % 4 ≡ 0
    inside : offset + len ≤ app_region_size

  abbrev write_body : ℕ → (D → Bytes) → ℕ → Session D → Result D
  write_body offset src len s =
      and_then (ensure_erased hal s) (program_verify hal src (len / 4) 0 (s.base + offset))

  flash_program_write-cases :
      (offset : ℕ) (src : D → Bytes) (len : ℕ) (s : Session D)
      → OnRegion s
      → offset ≤ 2 ^ 20
      → len ≤ 2 ^ 20
      → (flash_program_write hal offset src len s ≡ (false, s))
        ⊎ Accepted offset len s
          × (flash_program_write hal offset src len s ≡ write_body offset src len s)
  unfolding flash_program_write
  flash_program_write-cases offset src len s on h k =
      rw no_wrap (ground (arith, region_bounds s on))
    where
      no_wrap : u32 (s.base + offset) ≡ s.base + offset
      no_wrap = omega (arith, region_bounds s on)

  write_body-SameOutside :
      (offset : ℕ) (src : D → Bytes) (len : ℕ) (s : Session D)
      → OnRegion s
      → Accepted offset len s
      → SameOutside hal
          (sector_begin s.sector)
          (sector_end s.sector)
          s.dev
          (write_body offset src len s).1.dev
  write_body-SameOutside offset src len s on ok =
      and_then-SameOutside hal (sector_begin s.sector) (sector_end s.sector) s.dev
        (ensure_erased hal s) (program_verify hal src (len / 4) 0 (s.base + offset))
        (ensure_erased-SameOutside s)
        (SameOutside-widen hal (s.base + offset + 0) (s.base + offset + 0 + 4 * (len / 4))
          (sector_begin s.sector) (sector_end s.sector) (ensure_erased hal s).1.dev
          (program_verify hal src (len / 4) 0 (s.base + offset) (ensure_erased hal s).1).1.dev
          (omega (arith, region_bounds s on)) (omega (arith, region_bounds s on, ok))
          (program_verify-SameOutside hal laws src (len / 4) 0 (s.base + offset)
            (ensure_erased hal s).1 (omega (arith, region_bounds s on, ok))))

  -- Whatever a write is asked for and however it ends, only the session's region changes.
  pub flash_program_write-SameOutside :
      (offset : ℕ) (src : D → Bytes) (len : ℕ) (s : Session D)
      → OnRegion s
      → offset ≤ 2 ^ 20
      → len ≤ 2 ^ 20
      → SameOutside hal
          (sector_begin s.sector)
          (sector_end s.sector)
          s.dev
          (flash_program_write hal offset src len s).1.dev
  flash_program_write-SameOutside offset src len s on h k a out =
      elim (flash_program_write-cases offset src len s on h k) [
        | inl e ↦ ap (λ (r : Result D). hal.byte r.1.dev a) e
        | inr (ok, e) ↦
            ap (λ (r : Result D). hal.byte r.1.dev a) e
            ∙ write_body-SameOutside offset src len s on ok a out
      ]

  write_body-Wrote :
      (offset : ℕ) (src : D → Bytes) (len : ℕ) (s : Session D)
      → OnRegion s
      → Accepted offset len s
      → IsSource hal src len (sector_begin s.sector) (sector_end s.sector)
      → (write_body offset src len s).0 ≡ true
      → Wrote hal offset src len s (write_body offset src len s).1
  write_body-Wrote offset src len s on ok source done = record {
    aligned = ok.aligned;
    inside = ok.inside;
    same_base = omega (
      arith,
      ap (λ (r : Result D). r.1.base) split.1,
      program_verify-session hal laws src (len / 4) 0 addr first.1,
      ensure_erased-session s,
    );
    same_sector = omega (
      arith,
      ap (λ (r : Result D). r.1.sector) split.1,
      program_verify-session hal laws src (len / 4) 0 addr first.1,
      ensure_erased-session s,
    );
    now_erased =
        ap (λ (r : Result D). r.1.erased) split.1
        ∙ (program_verify-session hal laws src (len / 4) 0 addr first.1).2
        ∙ (ensure_erased-session s).2 split.0;
    local = λ e a out.
        ap (λ (r : Result D). hal.byte r.1.dev a) split.1
        ∙ program_verify-SameOutside hal laws src (len / 4) 0 addr first.1 fits a
            (omega (arith, ok))
        ∙ ap (λ (r : Result D). hal.byte r.1.dev a) (ensure_erased-done s e);
    region = write_body-SameOutside offset src len s on ok;
    content = λ k h.
        ap (λ (r : Result D). hal.byte r.1.dev (addr + k)) split.1
        ∙ ap (hal.byte rest.1.dev) {x = addr + k} {y = addr + 0 + k} (omega arith)
        ∙ program_verify-ok hal laws src len (len / 4) 0 addr first.1 fits (omega (arith, ok))
            narrow (ap (λ (r : Result D). r.0) (sym split.1) ∙ done) k (omega (arith, ok))
        ∙ ap (src first.1.dev) {x = 0 + k} {y = k} (omega arith)
        ∙ source.steady s.dev first.1.dev (ensure_erased-SameOutside s) k h;
  }
    where
      addr : ℕ
      addr = s.base + offset

      first : Result D
      first = ensure_erased hal s

      split :
          (first.0 ≡ true)
          × (write_body offset src len s ≡ program_verify hal src (len / 4) 0 addr first.1)
      split = and_then-true first (program_verify hal src (len / 4) 0 addr) done

      rest : Result D
      rest = program_verify hal src (len / 4) 0 addr first.1

      fits : addr + 0 + 4 * (len / 4) ≤ 2 ^ 32
      fits = omega (arith, region_bounds s on, ok)

      narrow : IsSource hal src len (addr + 0) (addr + 0 + 4 * (len / 4))
      narrow =
          IsSource-narrow hal src len (sector_begin s.sector) (sector_end s.sector) (addr + 0)
            (addr + 0 + 4 * (len / 4)) (omega (arith, region_bounds s on))
            (omega (arith, region_bounds s on, ok)) source

  -- A write of at most 2^20 bytes at an offset of at most 2^20, in a session on one of the sectors 5
  -- to 7, that returns 0 was aligned and inside the region and did what `Wrote` says.
  pub flash_program_write-Wrote :
      (offset : ℕ) (src : D → Bytes) (len : ℕ) (s : Session D)
      → OnRegion s
      → offset ≤ 2 ^ 20
      → len ≤ 2 ^ 20
      → IsSource hal src len (sector_begin s.sector) (sector_end s.sector)
      → (flash_program_write hal offset src len s).0 ≡ true
      → Wrote hal offset src len s (flash_program_write hal offset src len s).1
  flash_program_write-Wrote offset src len s on h k source done =
      elim (flash_program_write-cases offset src len s on h k) [
        | inl e ↦ absurd (false≢true (ap (λ (r : Result D). r.0) (sym e) ∙ done))
        | inr (ok, e) ↦
            subst (λ (r : Result D). Wrote hal offset src len s r.1) (sym e)
              (write_body-Wrote offset src len s on ok source
                (ap (λ (r : Result D). r.0) (sym e) ∙ done))
      ]

  -- A write keeps the session's target, however it ends.
  pub flash_program_write-session :
      (offset : ℕ) (src : D → Bytes) (len : ℕ) (s : Session D)
      → let s' = (flash_program_write hal offset src len s).1 in
        (s'.base ≡ s.base) × (s'.sector ≡ s.sector)
  unfolding flash_program_write
  flash_program_write-session offset src len s =
      let addr = u32 (s.base + offset) in
      ground (
        arith,
        ensure_erased-session s,
        program_verify-session hal laws src (len / 4) 0 addr (ensure_erased hal s).1,
      )
