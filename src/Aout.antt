-- ===== src/Aout.antt =====
-- firmware/app/src/Aout.c: the analog outputs. The I2C bus is a parameter: `write reg data` is
-- HAL_I2C_Mem_Write to the GP8403, whose flag is true for HAL_OK.
mod Tests
pub mod Frame
use drdro_mainboard.Base.{
  ℕ, zero, suc, ◌+◌, ◌*◌, ◌/◌, ◌%◌, Bool, true, false, ltb, ◌==◌, if◌then◌else◌, u8, List, [], ◌∷◌,
}

pub record Bus (B : Type 0) : Type 0 where
  pub write : ℕ → List ℕ → B → Bool × B

-- The bus, and `sPresent`.
pub record Dac (B : Type 0) : Type 0 where
  pub bus : B
  pub present : Bool

abbrev pub reg_config : ℕ
reg_config = 0x01

abbrev pub reg_vout0 : ℕ
reg_vout0 = 0x02

abbrev pub reg_vout1 : ℕ
reg_vout1 = 0x04

abbrev pub cfg_0_10v : ℕ
cfg_0_10v = 0x11

-- The 12-bit code, left-justified, low byte first: `(raw << 4) & 0xF0` and `raw >> 4`.
abbrev pub dac_frame : ℕ → List ℕ
dac_frame raw = raw * 16 % 256 ∷ u8 (raw / 16) ∷ []

module _ {B : Type 0} (i2c : Bus B) where
  unfoldable pub aout_init : Dac B → Bool × Dac B
  aout_init s =
      let (rc, b) = i2c.write reg_config (cfg_0_10v ∷ []) s.bus in
      (rc, record { bus = b; present = rc })

  unfoldable pub aout_write : ℕ → ℕ → Dac B → Bool × Dac B
  aout_write ch raw s =
      let code = if ltb 4095 raw then 4095 else raw in
      let (rc, b) = i2c.write (if ch == 0 then reg_vout0 else reg_vout1) (dac_frame code) s.bus in
      if ltb 1 ch then (false, s) else (rc, record s { bus = b })

  -- Both channels, whatever the first write returns.
  unfoldable pub aout_apply : (ℕ → ℕ) → Dac B → Dac B
  aout_apply raw s = if s.present then (aout_write 1 (raw 1) (aout_write 0 (raw 0) s).1).1 else s
