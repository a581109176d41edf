-- ===== src/Scales.antt =====
-- firmware/app/src/Scales.c: the encoder timers. HAL_TIM_Encoder_Init and the synchronisation of the
-- master mode are parameters; they return true for HAL_OK.
pub mod Filter
mod Tests
use drdro_mainboard.Base.{ℕ, ◌+◌, ◌*◌, ◌/◌, ◌%◌, ◌^◌, Bool, true, false, ltb, if◌then◌else◌}

abbrev pub scales_filter_max : ℕ
scales_filter_max = 15

pub data Polarity : Type 0 where
  rising falling : Polarity

-- What varies of the time base and of `TIM_Encoder_InitTypeDef`: both inputs count on both edges,
-- undivided, and the prescaler and the repetition counter are 0.
pub record EncoderSetUp : Type 0 where
  pub period : ℕ
  pub ic1_polarity : Polarity
  pub ic1_filter : ℕ
  pub ic2_polarity : Polarity
  pub ic2_filter : ℕ

pub record TimerHal (T : Type 0) : Type 0 where
  pub encoder_init : EncoderSetUp → T → Bool × T
  pub master_config : T → Bool × T

unfoldable pub clamp_filter : ℕ → ℕ
clamp_filter filter = if ltb scales_filter_max filter then scales_filter_max else filter

unfoldable pub encoder_set_up : ℕ → EncoderSetUp
encoder_set_up filter = record {
  period = 65535;
  ic1_polarity = falling;
  ic1_filter = clamp_filter filter;
  ic2_polarity = rising;
  ic2_filter = clamp_filter filter;
}

unfoldable pub init_scale_timer : {T : Type 0} → TimerHal T → ℕ → T → Bool × T
init_scale_timer hal filter t =
    let (result, t1) = hal.encoder_init (encoder_set_up filter) t in
    if result then hal.master_config t1 else (false, t1)

-- The register CCMR1 with its fields IC1F, bits 4 to 7, and IC2F, bits 12 to 15, replaced.
unfoldable pub set_scale_filter : ℕ → ℕ → ℕ
set_scale_filter filter ccmr1 =
    let f = clamp_filter filter in
    ccmr1 % 2 ^ 4 + f * 2 ^ 4 + ccmr1 / 2 ^ 8 % 2 ^ 4 * 2 ^ 8 + f * 2 ^ 12 + ccmr1 / 2 ^ 16 * 2 ^ 16
