-- ===== src/Ymodem/Account.antt =====
-- What a transfer writes: on any line, the data of checked blocks numbered from 1 on, in their order.
use drdro_mainboard.Base.{
  ℕ, zero, suc, ◌+◌, ◌-◌, ◌≤◌, ◌<◌, ◌≡◌, ◌⊎◌, inl, inr, refl, ap, ◌∙◌, sym, subst, true, u8, u32,
  List, [], ◌∷◌, ◌++◌, length, get_or, length-append, get_or-append_left, get_or-append_right, All,
  IsByte, arith,
}
use native.Mathlib.Decide.{dec_lt}
use drdro_mainboard.Layout.{app_region_size, sector_begin}
use drdro_mainboard.Hal.{FlashHal, IsFlash}
use drdro_mainboard.Flash.{Session, flash_program_end, flash_program_write}
use drdro_mainboard.Flash.Region.{
  OnRegion, Wrote, flash_program_write-Wrote, flash_program_write-session,
}
use drdro_mainboard.Ymodem.{
  Line, ym_ok, ym_timeout, ym_cancelled, ym_flash_err, Transfer, Progress, going, ended, contents,
}
use drdro_mainboard.Ymodem.Frame.{answers, frame, IsPacket}

-- A line on which the frames of `k` blocks, numbered from 1 on, stand in their order, with anything
-- between them; `body` is their data.
pub data Blocks : Line → ℕ → List ℕ → Type 0 where
  no_block : (l : Line) → Blocks l 0 []
  then_noise :
      {l : Line} {k : ℕ} {body : List ℕ}
      → Blocks l k body
      → (skip : Line) → Blocks (l ++ skip) k body
  then_block :
      {l : Line} {k : ℕ} {body : List ℕ}
      → Blocks l k body
      → (p : List ℕ) → Blocks (l ++ answers (frame (u8 (k + 1)) p)) (suc k) (body ++ p)

pub contents-IsByte : (w : List ℕ) → All IsByte w → (i : ℕ) → IsByte (contents w i)
contents-IsByte [] h i = omega arith
contents-IsByte (b ∷ w) h zero = h.0
contents-IsByte (b ∷ w) h (suc i) = contents-IsByte w h.1 i

module _ {D : Type 0} (hal : FlashHal D) where
  -- The transfer has written `body` to the start of its region.
  pub record Written (base : ℕ) (body : List ℕ) (t : Transfer D) : Type 0 where
    pub on : OnRegion t.flash
    pub at : t.flash.base ≡ base
    pub count : t.written ≡ length body
    pub within : length body ≤ app_region_size
    pub erased : (length body ≡ 0) ⊎ (t.flash.erased ≡ true)
    pub content : (i : ℕ) → i < length body → hal.byte t.flash.dev (base + i) ≡ get_or body i 0

  -- A part of the line is consumed, whose blocks have been written.
  pub record Taken (whole : Line) (base k : ℕ) (body : List ℕ) (c : Line) (t : Transfer D)
      : Type 0 where
    pub blocks : Blocks c k body
    pub number : t.expected ≡ u8 (k + 1)
    pub written : Written base body t

  -- Where a transfer stands: before a packet, or at its end.
  abbrev pub Accounted : Line → ℕ → Progress D → Type 0
  Accounted whole base (going p t) =
      (k : ℕ) × (body : List ℕ) × (c : Line) × (taken : Line) × (c ++ (taken ++ t.line) ≡ whole)
      × IsPacket p taken
      × Taken whole base k body c t
  Accounted whole base (ended ym_flash_err t) = Unit
  Accounted whole base (ended ym_ok t) =
      (k : ℕ) × (body : List ℕ) × (c : Line) × (c ++ t.line ≡ whole) × Taken whole base k body c t
  Accounted whole base (ended ym_timeout t) =
      (k : ℕ) × (body : List ℕ) × (c : Line) × (c ++ t.line ≡ whole) × Taken whole base k body c t
  Accounted whole base (ended ym_cancelled t) =
      (k : ℕ) × (body : List ℕ) × (c : Line) × (c ++ t.line ≡ whole) × Taken whole base k body c t

  pub Written-same :
      (base : ℕ) (body : List ℕ) (t t' : Transfer D)
      → t'.flash ≡ t.flash
      → t'.written ≡ t.written
      → Written base body t
      → Written base body t'
  Written-same base body t t' f n h = record {
    on = subst OnRegion (sym f) h.on;
    at = ap (λ (s : Session D). s.base) f ∙ h.at;
    count = n ∙ h.count;
    within = h.within;
    erased = subst (λ (s : Session D). (length body ≡ 0) ⊎ (s.erased ≡ true)) (sym f) h.erased;
    content = λ i lt. ap (λ (s : Session D). hal.byte s.dev (base + i)) f ∙ h.content i lt;
  }

  pub Taken-same :
      (whole : Line) (base k : ℕ) (body : List ℕ) (c : Line) (t t' : Transfer D)
      → t'.flash ≡ t.flash
      → t'.written ≡ t.written
      → t'.expected ≡ t.expected
      → Taken whole base k body c t
      → Taken whole base k body c t'
  Taken-same whole base k body c t t' f n x h = record {
    blocks = h.blocks;
    number = x ∙ h.number;
    written = Written-same base body t t' f n h.written;
  }

  pub Taken-noise :
      (whole : Line) (base k : ℕ) (body : List ℕ) (c skip : Line) (t : Transfer D)
      → Taken whole base k body c t
      → Taken whole base k body (c ++ skip) t
  Taken-noise whole base k body c skip t h = record {
    blocks = then_noise h.blocks skip;
    number = h.number;
    written = h.written;
  }

module _ {D : Type 0} (hal : FlashHal D) (laws : IsFlash hal) where
  -- A write at the end of what is written.
  pub write_next :
      (base : ℕ) (body p : List ℕ) (t : Transfer D)
      → Written hal base body t
      → All IsByte p
      → length p ≤ 1024
      → (flash_program_write hal t.written (λ d. contents p) (length p) t.flash).0 ≡ true
      → (t' : Transfer D)
      → t'.flash ≡ (flash_program_write hal t.written (λ d. contents p) (length p) t.flash).1
      → t'.written ≡ u32 (t.written + length p)
      → Written hal base (body ++ p) t'
  write_next base body p t h bytes short done t' f n = record {
    on = subst OnRegion (sym f) (record {
      sector_high = omega (arith, kept.1, h.on.sector_high);
      sector_low = omega (arith, kept.1, h.on.sector_low);
      at_base = kept.0 ∙ h.on.at_base ∙ ap sector_begin (sym kept.1);
    });
    at = ap (λ (s : Session D). s.base) f ∙ kept.0 ∙ h.at;
    count = omega (arith, n, h.count, long, h.within);
    within = omega (arith, long, wrote.inside, h.count);
    erased = inr (ap (λ (s : Session D). s.erased) f ∙ wrote.now_erased);
    content = λ i lt.
        ap (λ (s : Session D). hal.byte s.dev (base + i)) f ∙ elim (dec_lt i (length body)) [
          | yes low ↦ old i low ∙ h.content i low ∙ sym (get_or-append_left body p i 0 low)
          | no high ↦ fresh i (omega arith) (omega (arith, long))
        ];
  }
    where
      after : Session D
      after = (flash_program_write hal t.written (λ d. contents p) (length p) t.flash).1

      kept : (after.base ≡ t.flash.base) × (after.sector ≡ t.flash.sector)
      kept = flash_program_write-session hal laws t.written (λ d. contents p) (length p) t.flash

      long : length (body ++ p) ≡ length body + length p
      long = length-append body p

      wrote : Wrote hal t.written (λ d. contents p) (length p) t.flash after
      wrote =
          flash_program_write-Wrote hal laws t.written (λ d. contents p) (length p) t.flash h.on
            (omega (arith, h.count, h.within)) (omega arith)
            (record {
              steady = λ d d' same i lt. refl;
              yields_bytes = λ d i. contents-IsByte p bytes i;
            })
            done

      old :
          (i : ℕ)
          → i < length body
          → hal.byte after.dev (base + i) ≡ hal.byte t.flash.dev (base + i)
      old i low = elim h.erased [
        | inl z ↦ absurd (omega (arith, z))
        | inr e ↦ wrote.local e (base + i) (inl (omega (arith, h.at, h.count)))
      ]

      fresh :
          (i : ℕ)
          → length body ≤ i
          → i < length body + length p
          → hal.byte after.dev (base + i) ≡ get_or (body ++ p) i 0
      fresh i high lt =
          ap (hal.byte after.dev) {x = base + i} {y = t.flash.base + t.written + (i - length body)}
            (omega (arith, h.at, h.count))
          ∙ wrote.content (i - length body) (omega arith)
          ∙ sym (get_or-append_right body p (i - length body) 0)
          ∙ ap (λ (j : ℕ). get_or (body ++ p) j 0) {x = length body + (i - length body)} {y = i}
              (omega arith)

  pub close-Taken :
      (whole : Line) (base k : ℕ) (body : List ℕ) (c : Line) (t : Transfer D)
      → Taken hal whole base k body c t
      → Taken hal whole base k body c (record t { flash = flash_program_end hal t.flash })
  unfolding flash_program_end
  close-Taken whole base k body c t h = record {
    blocks = h.blocks;
    number = h.number;
    written = record {
      on = record {
        sector_high = h.written.on.sector_high;
        sector_low = h.written.on.sector_low;
        at_base = h.written.on.at_base;
      };
      at = h.written.at;
      count = h.written.count;
      within = h.written.within;
      erased = h.written.erased;
      content = λ i lt. laws.lock_byte t.flash.dev (base + i) ∙ h.written.content i lt;
    };
  }
