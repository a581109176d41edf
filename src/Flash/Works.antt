-- ===== src/Flash/Works.antt =====
-- On a part without a defect, every write of the bootloader succeeds: the session has unlocked the part
-- and erased what it programs.
use drdro_mainboard.Base.{
  ℕ, zero, suc, ◌+◌, ◌*◌, ◌/◌, ◌%◌, ◌^◌, ◌≤◌, ◌<◌, ◌≡◌, inl, inr, refl, ap, ◌∙◌, sym, subst, true,
  false, Bool-cases, Bytes, IsByte, le32, u32, arith,
}
use mathlib.Core.Bool.{false≢true}
use drdro_mainboard.Layout.{app_region_size, sector_begin}
use drdro_mainboard.Hal.{FlashHal, IsFlash, IsBlank, IsWordAddress, Works}
use drdro_mainboard.Flash.{
  Session, Result, and_then, flash_erase_sector, program_word, program_verify, ensure_erased,
  flash_program_write, flash_program_begin,
}
use drdro_mainboard.Flash.Word.{
  and_then-true, program_word-SameOutside, program_verify-SameOutside, program_verify-session,
}
use drdro_mainboard.Flash.Region.{
  OnRegion, region_bounds, ensure_erased-session, ensure_erased-done,
}

pub and_then-both :
    {D : Type 0} (r : Result D) (next : Session D → Result D)
    → r.0 ≡ true
    → (next r.1).0 ≡ true
    → (and_then r next).0 ≡ true
and_then-both (true, s) next h k = k
and_then-both (false, s) next h k = h

le32-lt : (m : Bytes) (i : ℕ) → ((j : ℕ) → IsByte (m j)) → le32 m i < 2 ^ 32
le32-lt m i h = omega (arith, h i, h (i + 1), h (i + 2), h (i + 3))

module _ {D : Type 0} (hal : FlashHal D) (laws : IsFlash hal) (works : Works hal) where
  program_word-works :
      (a w : ℕ) (s : Session D)
      → works.unlocked s.dev ≡ true
      → IsBlank hal a (a + 4) s.dev
      → IsWordAddress a
      → w < 2 ^ 32
      → (program_word hal a w s).0 ≡ true
  unfolding program_word
  program_word-works a w s opened blank word h = ground (
    arith,
    works.programs a w s.dev opened blank word h,
    works.reads_back a w s.dev opened blank word h,
  )

  program_word-unlocked :
      (a w : ℕ) (s : Session D)
      → works.unlocked (program_word hal a w s).1.dev ≡ works.unlocked s.dev
  unfolding program_word
  program_word-unlocked a w s = ground (arith, works.program_keeps a w s.dev)

  program_verify-unlocked :
      (src : D → Bytes) (n i addr : ℕ) (s : Session D)
      → works.unlocked (program_verify hal src n i addr s).1.dev ≡ works.unlocked s.dev
  unfolding program_verify
  program_verify-unlocked src zero i addr s = refl
  program_verify-unlocked src (suc n) i addr s =
      let r : Result D = program_word hal (u32 (addr + i)) (le32 (src s.dev) i) s in
      ground (
        arith,
        program_word-unlocked (u32 (addr + i)) (le32 (src s.dev) i) s,
        program_verify-unlocked src n (i + 4) addr r.1,
      )

  -- An unlocked part takes words into an erased span.
  pub program_verify-works :
      (src : D → Bytes) (n i addr : ℕ) (s : Session D)
      → works.unlocked s.dev ≡ true
      → IsBlank hal (addr + i) (addr + i + 4 * n) s.dev
      → (addr + i) % 4 ≡ 0
      → 0x08000000 ≤ addr
      → addr + i + 4 * n ≤ 0x08080000
      → ((d : D) (j : ℕ) → IsByte (src d j))
      → (program_verify hal src n i addr s).0 ≡ true
  unfolding program_verify
  program_verify-works src zero i addr s opened blank aligned lo hi h = refl
  program_verify-works src (suc n) i addr s opened blank aligned lo hi h =
      and_then-both first (program_verify hal src n (i + 4) addr)
        (program_word-works (u32 (addr + i)) w s opened
          (λ a p q. blank a (omega arith) (omega arith)) (omega arith, omega arith, omega arith)
          (le32-lt (src s.dev) i (h s.dev)))
        (program_verify-works src n (i + 4) addr first.1
          (program_word-unlocked (u32 (addr + i)) w s ∙ opened)
          (λ a p q.
            program_word-SameOutside hal laws (u32 (addr + i)) w s a (omega arith)
            ∙ blank a (omega arith) (omega arith))
          (omega arith) lo (omega arith) h)
    where
      w : ℕ
      w = le32 (src s.dev) i

      first : Result D
      first = program_word hal (u32 (addr + i)) w s

  -- A session that is ready for a write at `off`: the part is unlocked and, unless the erase is still to
  -- come, the region is erased from there on.
  pub record Prepared (off : ℕ) (s : Session D) : Type 0 where
    pub on : OnRegion s
    pub aligned : off % 4 ≡ 0
    pub opened : works.unlocked s.dev ≡ true
    pub blank : s.erased ≡ true → IsBlank hal (s.base + off) (s.base + app_region_size) s.dev

  pub begin-Prepared :
      (sector : ℕ) (s : Session D)
      → 5 ≤ sector
      → sector ≤ 7
      → Prepared 0 (flash_program_begin hal (sector_begin sector) sector s)
  unfolding flash_program_begin
  begin-Prepared sector s lo hi = record {
    on = record { sector_high = lo; sector_low = hi; at_base = refl };
    aligned = refl;
    opened = works.clear_keeps (hal.unlock s.dev) ∙ works.unlock_opens s.dev;
    blank = λ e. absurd (false≢true e);
  }

  -- The erase leaves the session ready, and the region erased.
  ensure_erased-Prepared :
      (off : ℕ) (s : Session D)
      → Prepared off s
      → ((ensure_erased hal s).0 ≡ true)
        × Prepared off (ensure_erased hal s).1
        × ((ensure_erased hal s).1.erased ≡ true)
  unfolding ensure_erased flash_erase_sector
  ensure_erased-Prepared off s p = elim (Bool-cases s.erased) [
    | inl e ↦
        subst (λ (r : Result D). (r.0 ≡ true) × Prepared off r.1 × (r.1.erased ≡ true))
          (sym (ensure_erased-done hal laws s e)) (refl, p, e)
    | inr e ↦
        subst (λ (r : Result D). (r.0 ≡ true) × Prepared off r.1 × (r.1.erased ≡ true))
          (sym (fresh e)) (refl, after, refl)
  ]
    where
      s1 : Session D
      s1 = record s { dev = (hal.erase s.sector s.dev).1; erased = true }

      fresh : s.erased ≡ false → ensure_erased hal s ≡ (true, s1)
      fresh e =
          ground (arith, e, p.on.sector_high, works.erases s.sector s.dev p.opened p.on.sector_low)

      after : Prepared off s1
      after = record {
        on = record {
          sector_high = p.on.sector_high;
          sector_low = p.on.sector_low;
          at_base = p.on.at_base;
        };
        aligned = p.aligned;
        opened = works.erase_keeps s.sector s.dev ∙ p.opened;
        blank = λ e a lo hi.
            works.blanks s.sector s.dev p.opened p.on.sector_low a
              (omega (arith, region_bounds s p.on)) (omega (arith, region_bounds s p.on));
      }

  flash_program_write-body :
      (off : ℕ) (src : D → Bytes) (len : ℕ) (s : Session D)
      → OnRegion s
      → len % 4 ≡ 0
      → off + len ≤ app_region_size
      → flash_program_write hal off src len s
        ≡ and_then (ensure_erased hal s) (program_verify hal src (len / 4) 0 (s.base + off))
  unfolding flash_program_write
  flash_program_write-body off src len s on aligned h =
      rw no_wrap (ground (arith, region_bounds s on))
    where
      no_wrap : u32 (s.base + off) ≡ s.base + off
      no_wrap = omega (arith, region_bounds s on)

  -- A write of whole words inside the region succeeds and leaves the session ready for the next.
  pub flash_program_write-works :
      (off : ℕ) (src : D → Bytes) (len : ℕ) (s : Session D)
      → Prepared off s
      → len % 4 ≡ 0
      → off + len ≤ app_region_size
      → ((d : D) (j : ℕ) → IsByte (src d j))
      → ((flash_program_write hal off src len s).0 ≡ true)
        × Prepared (off + len) (flash_program_write hal off src len s).1
  flash_program_write-works off src len s p aligned h bytes =
      subst (λ (r : Result D). (r.0 ≡ true) × Prepared (off + len) r.1)
        (sym (
          flash_program_write-body off src len s p.on aligned h
          ∙ (and_then-true e0 next (and_then-both e0 next start.0 done)).1))
        (done, after)
    where
      addr : ℕ
      addr = s.base + off

      e0 : Result D
      e0 = ensure_erased hal s

      next : Session D → Result D
      next = program_verify hal src (len / 4) 0 addr

      start : (e0.0 ≡ true) × Prepared off e0.1 × (e0.1.erased ≡ true)
      start = ensure_erased-Prepared off s p

      target : (e0.1.base ≡ s.base) × (e0.1.sector ≡ s.sector) × (e0.0 ≡ true → e0.1.erased ≡ true)
      target = ensure_erased-session hal laws s

      blank : IsBlank hal addr (s.base + app_region_size) e0.1.dev
      blank a lo hi = start.1.blank start.2 a (omega (arith, target.0)) (omega (arith, target.0))

      low : (s.base % 4 ≡ 0) × (0x08000000 ≤ s.base)
      low = ground (arith, p.on.sector_high, p.on.sector_low, p.on.at_base)

      done : (next e0.1).0 ≡ true
      done =
          program_verify-works src (len / 4) 0 addr e0.1 start.1.opened
            (λ a lo hi. blank a (omega arith) (omega (arith, h))) (omega (arith, p.aligned, low))
            (omega (arith, low)) (omega (arith, region_bounds s p.on, h)) bytes

      same :
          ((next e0.1).1.base ≡ e0.1.base)
          × ((next e0.1).1.sector ≡ e0.1.sector)
          × ((next e0.1).1.erased ≡ e0.1.erased)
      same = program_verify-session hal laws src (len / 4) 0 addr e0.1

      after : Prepared (off + len) (next e0.1).1
      after = record {
        on = record {
          sector_high = omega (arith, same.1, target.1, p.on.sector_high);
          sector_low = omega (arith, same.1, target.1, p.on.sector_low);
          at_base = same.0 ∙ target.0 ∙ p.on.at_base ∙ ap sector_begin (sym (same.1 ∙ target.1));
        };
        aligned = omega (arith, p.aligned);
        opened = program_verify-unlocked src (len / 4) 0 addr e0.1 ∙ start.1.opened;
        blank = λ e a lo hi.
            program_verify-SameOutside hal laws src (len / 4) 0 addr e0.1
              (omega (arith, region_bounds s p.on, h)) a (inr (omega (arith, same.0, target.0)))
            ∙ blank a (omega (arith, same.0, target.0)) (omega (arith, same.0, target.0));
      }
