-- ===== src/Flash/Copy.antt =====
-- `flash_copy_region`: a copy that returns 0 is exact, and a copy touches its target alone.
use drdro_mainboard.Base.{
  ℕ, zero, suc, ◌+◌, ◌-◌, ◌*◌, ◌^◌, ◌≤◌, ◌<◌, ◌≡◌, refl, ap, ◌∙◌, sym, subst, true, Bytes, arith,
  ◌⊎◌,
}
use drdro_mainboard.Layout.{app_region_size, sector_begin, sector_end}
use drdro_mainboard.Hal.{FlashHal, IsFlash, SameOutside}
use drdro_mainboard.Flash.{
  Session, Result, flash_program_write, copy_chunks, flash_copy_region, flash_program_begin,
  flash_program_end,
}
use drdro_mainboard.Flash.Word.{IsSource, and_then-SameOutside, and_then-true}
use drdro_mainboard.Flash.Region.{
  OnRegion, Wrote, flash_program_write-Wrote, flash_program_write-session,
  flash_program_write-SameOutside,
}
use native.Mathlib.Decide.{dec_lt}

module _ {D : Type 0} where
  -- The region at `src` lies outside the session's.
  abbrev pub IsApart : ℕ → Session D → Type 0
  IsApart src s = (src + app_region_size ≤ sector_begin s.sector) ⊎ (sector_end s.sector ≤ src)

module _ {D : Type 0} (hal : FlashHal D) where
  -- What `n` chunks that succeeded have done.
  pub record Copied (src n off : ℕ) (s s' : Session D) : Type 0 where
    pub content :
        (k : ℕ) → k < 256 * n → hal.byte s'.dev (s.base + off + k) ≡ hal.byte s.dev (src + off + k)
    pub local :
        s.erased ≡ true → SameOutside hal (s.base + off) (s.base + off + 256 * n) s.dev s'.dev

module _ {D : Type 0} (hal : FlashHal D) (laws : IsFlash hal) where
  abbrev chunk : ℕ → ℕ → D → Bytes
  chunk src off d k = hal.byte d (src + off + k)

  chunk-IsSource :
      (src off : ℕ) (s : Session D)
      → IsApart src s
      → off + 256 ≤ app_region_size
      → IsSource hal (chunk src off) 256 (sector_begin s.sector) (sector_end s.sector)
  chunk-IsSource src off s apart h = record {
    steady = λ d d' same k lt. same (src + off + k) (omega arith);
    yields_bytes = λ d k. laws.byte_range d (src + off + k);
  }

  abbrev step : ℕ → ℕ → Session D → Result D
  step src off s = flash_program_write hal off (λ d k. hal.byte d (src + off + k)) 256 s

  pub step-OnRegion : (src off : ℕ) (s : Session D) → OnRegion s → OnRegion (step src off s).1
  step-OnRegion src off s on =
      let same =
        flash_program_write-session hal laws off (λ d k. hal.byte d (src + off + k)) 256 s in
      record {
        sector_high = omega (arith, same, on);
        sector_low = omega (arith, same, on);
        at_base = same.0 ∙ on.at_base ∙ ap sector_begin (sym same.1);
      }

  pub copy_chunks-SameOutside :
      (src n off : ℕ) (s : Session D)
      → OnRegion s
      → off + 256 * n ≤ 2 ^ 20
      → SameOutside hal
          (sector_begin s.sector)
          (sector_end s.sector)
          s.dev
          (copy_chunks hal src n off s).1.dev
  unfolding copy_chunks
  copy_chunks-SameOutside src zero off s on h a out = refl
  copy_chunks-SameOutside src (suc n) off s on h a out =
      and_then-SameOutside hal (sector_begin s.sector) (sector_end s.sector) s.dev (step src off s)
        (copy_chunks hal src n (off + 256))
        (flash_program_write-SameOutside hal laws off (chunk src off) 256 s on (omega arith)
          (omega arith))
        (λ b apart.
          copy_chunks-SameOutside src n (off + 256) (step src off s).1 (step-OnRegion src off s on)
            (omega arith) b (rw target apart))
        a out
    where
      target : (step src off s).1.sector ≡ s.sector
      target = (flash_program_write-session hal laws off (chunk src off) 256 s).1

  step-Wrote :
      (src off : ℕ) (s : Session D)
      → OnRegion s
      → IsApart src s
      → off + 256 ≤ app_region_size
      → (step src off s).0 ≡ true
      → Wrote hal off (chunk src off) 256 s (step src off s).1
  step-Wrote src off s on apart h =
      flash_program_write-Wrote hal laws off (chunk src off) 256 s on (omega arith) (omega arith)
        (chunk-IsSource src off s apart h)

  -- A chunk that was written, and what later chunks did, together.
  Copied-suc :
      (src n off : ℕ) (s s' s'' : Session D)
      → OnRegion s
      → IsApart src s
      → off + 256 * suc n ≤ app_region_size
      → Wrote hal off (chunk src off) 256 s s'
      → Copied hal src n (off + 256) s' s''
      → Copied hal src (suc n) off s s''
  Copied-suc src n off s s' s'' on apart h first later = record {
    content = λ k lt. elim (dec_lt k 256) [
      | yes near ↦
          later.local first.now_erased (s.base + off + k) (omega (arith, first))
          ∙ first.content k near
      | no far ↦
          ap (hal.byte s''.dev) {x = s.base + off + k} {y = s'.base + (off + 256) + (k - 256)}
            (omega (arith, first))
          ∙ later.content (k - 256) (omega arith)
          ∙ ap (hal.byte s'.dev) {x = src + (off + 256) + (k - 256)} {y = src + off + k}
              (omega arith)
          ∙ first.region (src + off + k) (omega arith)
    ];
    local = λ e a out.
        later.local first.now_erased a (omega (arith, first)) ∙ first.local e a (omega arith);
  }

  pub copy_chunks-Copied :
      (src n off : ℕ) (s : Session D)
      → OnRegion s
      → IsApart src s
      → off + 256 * n ≤ app_region_size
      → (copy_chunks hal src n off s).0 ≡ true
      → Copied hal src n off s (copy_chunks hal src n off s).1
  unfolding copy_chunks
  copy_chunks-Copied src zero off s on apart h done = record {
    content = λ k lt. absurd (omega arith);
    local = λ e a out. refl;
  }
  copy_chunks-Copied src (suc n) off s on apart h done =
      let rest = λ (r : Result D). copy_chunks hal src n (off + 256) r.1 in
      let split = and_then-true (step src off s) (copy_chunks hal src n (off + 256)) done in
      let first = step-Wrote src off s on apart (omega arith) split.0 in
      subst (λ (r : Result D). Copied hal src (suc n) off s r.1) (sym split.1)
        (Copied-suc src n off s (step src off s).1 (rest (step src off s)).1 on apart h first (
          copy_chunks-Copied src n (off + 256) (step src off s).1 (step-OnRegion src off s on)
            (rw first.same_sector apart) (omega arith)
            (ap (λ (r : Result D). r.0) (sym split.1) ∙ done)))

  abbrev begun : ℕ → ℕ → Session D → Session D
  begun sector base s = flash_program_begin hal base sector s

  -- Opening a session leaves the memory as it was.
  begun-byte :
      (sector base : ℕ) (s : Session D) (a : ℕ)
      → hal.byte (begun sector base s).dev a ≡ hal.byte s.dev a
  unfolding flash_program_begin
  begun-byte sector base s a = laws.clear_byte (hal.unlock s.dev) a ∙ laws.unlock_byte s.dev a

  begun-target :
      (sector base : ℕ) (s : Session D)
      → ((begun sector base s).sector ≡ sector) × ((begun sector base s).base ≡ base)
  unfolding flash_program_begin
  begun-target sector base s = (refl, refl)

  begun-OnRegion :
      (sector : ℕ) (s : Session D)
      → 5 ≤ sector
      → sector ≤ 7
      → OnRegion (begun sector (sector_begin sector) s)
  unfolding flash_program_begin
  begun-OnRegion sector s lo hi = record { sector_high = lo; sector_low = hi; at_base = refl }

  -- Whatever its outcome, `flash_copy_region` changes nothing outside its target sector.
  pub flash_copy_region-SameOutside :
      (sector src : ℕ) (s : Session D)
      → 5 ≤ sector
      → sector ≤ 7
      → SameOutside hal
          (sector_begin sector)
          (sector_end sector)
          s.dev
          (flash_copy_region hal sector (sector_begin sector) src s).1.dev
  unfolding flash_copy_region flash_program_end
  flash_copy_region-SameOutside sector src s lo hi a out =
      laws.lock_byte _ a
      ∙ copy_chunks-SameOutside src 512 0 (begun sector (sector_begin sector) s)
          (begun-OnRegion sector s lo hi) (omega arith) a
          (rw (begun-target sector (sector_begin sector) s).0 out)
      ∙ begun-byte sector (sector_begin sector) s a

  -- A copy that returns 0 is exact: all 131072 bytes of the target are those of the source.
  pub flash_copy_region-exact :
      (sector src : ℕ) (s : Session D)
      → 5 ≤ sector
      → sector ≤ 7
      → (src + app_region_size ≤ sector_begin sector) ⊎ (sector_end sector ≤ src)
      → (flash_copy_region hal sector (sector_begin sector) src s).0 ≡ true
      → (k : ℕ) → k < app_region_size
      → hal.byte
          (flash_copy_region hal sector (sector_begin sector) src s).1.dev
          (sector_begin sector + k)
        ≡ hal.byte s.dev (src + k)
  unfolding flash_copy_region flash_program_end
  flash_copy_region-exact sector src s lo hi apart done k lt =
      laws.lock_byte _ (sector_begin sector + k)
      ∙ ap (hal.byte (copy_chunks hal src 512 0 s0).1.dev) {x = sector_begin sector + k}
          {y = s0.base + 0 + k} (omega (arith, target))
      ∙ copied.content k (omega arith)
      ∙ ap (hal.byte s0.dev) {x = src + 0 + k} {y = src + k} (omega arith)
      ∙ begun-byte sector (sector_begin sector) s (src + k)
    where
      s0 : Session D
      s0 = begun sector (sector_begin sector) s

      target : (s0.sector ≡ sector) × (s0.base ≡ sector_begin sector)
      target = begun-target sector (sector_begin sector) s

      copied : Copied hal src 512 0 s0 (copy_chunks hal src 512 0 s0).1
      copied =
          copy_chunks-Copied src 512 0 s0 (begun-OnRegion sector s lo hi) (rw target.0 apart)
            (omega arith) done
