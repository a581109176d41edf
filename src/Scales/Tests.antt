-- ===== src/Scales/Tests.antt =====
-- The filter of a timer that counts on both inputs.
use drdro_mainboard.Base.{ℕ, ◌^◌, ◌<◌, ◌≡◌, refl, true, false, arith}
use drdro_mainboard.Scales.{
  TimerHal, clamp_filter, encoder_set_up, init_scale_timer, set_scale_filter,
}
use drdro_mainboard.Scales.Filter.{bits, set_scale_filter-fields}

filter_limited : set_scale_filter 99 0x0101 ≡ 0xF1F1
unfolding set_scale_filter clamp_filter
filter_limited = refl

-- A timer without a set-up, whose handle keeps the filter that it was given.
abbrev refusing : TimerHal ℕ
refusing = record { encoder_init = λ c t. (false, c.ic1_filter); master_config = λ t. (true, t) }

failed_set_up : init_scale_timer refusing 20 0 ≡ (false, 15)
unfolding init_scale_timer encoder_set_up clamp_filter
failed_set_up = refl

filter_fields_of_a_timer :
    let r' = set_scale_filter 5 0x0101 in
    (r' < 2 ^ 32)
    × (bits 4 4 r' ≡ clamp_filter 5)
    × (bits 12 4 r' ≡ clamp_filter 5)
    × (bits 0 4 r' ≡ bits 0 4 0x0101)
    × (bits 8 4 r' ≡ bits 8 4 0x0101)
    × (bits 16 16 r' ≡ bits 16 16 0x0101)
filter_fields_of_a_timer = set_scale_filter-fields 5 0x0101 (omega arith)
