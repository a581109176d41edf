-- ===== src/Settings/Range.antt =====
-- Loaded structs are made of bytes.
use drdro_mainboard.Base.{ℕ, ◌+◌, Bytes, arith}
use drdro_mainboard.Settings.{
  settings_defaults, settings_defaults_fields, settings_load, settings_load_one, settings_pick,
  slot_image, slot_base, put8, put16, put32,
}
use drdro_mainboard.Settings.Newest.{AreBytes}
use drdro_mainboard.Settings.Save.{settings_seal-AreBytes}

pub put8-AreBytes : (s : Bytes) (off v : ℕ) → AreBytes s → AreBytes (put8 s off v)
put8-AreBytes s off v h i = ground (arith, h i)

pub put16-AreBytes : (s : Bytes) (off v : ℕ) → AreBytes s → AreBytes (put16 s off v)
put16-AreBytes s off v h i = ground (arith, h i)

pub put32-AreBytes : (s : Bytes) (off v : ℕ) → AreBytes s → AreBytes (put32 s off v)
put32-AreBytes s off v h i = ground (arith, h i)

settings_defaults_fields-AreBytes : AreBytes settings_defaults_fields
unfolding settings_defaults_fields
settings_defaults_fields-AreBytes i = ground arith

pub settings_defaults-AreBytes : AreBytes settings_defaults
unfolding settings_defaults
settings_defaults-AreBytes =
    settings_seal-AreBytes settings_defaults_fields settings_defaults_fields-AreBytes

settings_load_one-AreBytes : (s : Bytes) → AreBytes s → AreBytes (settings_load_one s)
unfolding settings_load_one
settings_load_one-AreBytes s h i = ground (arith, h i, settings_defaults-AreBytes i)

-- Whatever the flash holds, the struct that a load fills is made of bytes.
pub settings_load-AreBytes : (m : Bytes) → AreBytes m → AreBytes (settings_load m).1
unfolding settings_load settings_pick
settings_load-AreBytes m h i = ground (
  arith,
  settings_load_one-AreBytes (slot_image m 0) (λ k. h (slot_base 0 + k)) i,
  settings_load_one-AreBytes (slot_image m 1) (λ k. h (slot_base 1 + k)) i,
  settings_defaults-AreBytes i,
)
