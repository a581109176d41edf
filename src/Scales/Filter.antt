-- ===== src/Scales/Filter.antt =====
-- The filter fields of a running timer, against the bits of its register.
use drdro_mainboard.Base.{ℕ, ◌/◌, ◌%◌, ◌^◌, ◌<◌, ◌≡◌, arith}
use drdro_mainboard.Scales.{clamp_filter, set_scale_filter}

-- The bits from `lo` on, `w` of them.
abbrev pub bits : ℕ → ℕ → ℕ → ℕ
bits lo w r = r / 2 ^ lo % 2 ^ w

clamp_filter-lt : (f : ℕ) → clamp_filter f < 16
unfolding clamp_filter
clamp_filter-lt f = ground arith

-- Both filter fields hold the value limited to 15; the bits around them are as they were, and the
-- register stays in its 32 bits.
pub set_scale_filter-fields :
    (f r : ℕ)
    → r < 2 ^ 32
    → let r' = set_scale_filter f r in
      (r' < 2 ^ 32)
      × (bits 4 4 r' ≡ clamp_filter f)
      × (bits 12 4 r' ≡ clamp_filter f)
      × (bits 0 4 r' ≡ bits 0 4 r)
      × (bits 8 4 r' ≡ bits 8 4 r)
      × (bits 16 16 r' ≡ bits 16 16 r)
unfolding set_scale_filter
set_scale_filter-fields f r h = (
  omega (arith, clamp_filter-lt f),
  omega (arith, clamp_filter-lt f),
  omega (arith, clamp_filter-lt f),
  omega (arith, clamp_filter-lt f),
  omega (arith, clamp_filter-lt f),
  omega (arith, clamp_filter-lt f),
)
