-- ===== src/Settings/Tests.antt =====
-- The laws of loading, at the defaults.
use drdro_mainboard.Base.{◌≡◌, ◌-◌, refl, true, false, none, some, Bytes, ltb, if◌then◌else◌}
use drdro_mainboard.Settings.{
  settings_load, settings_load_one, settings_defaults, settings_newest_slot, slot_image, put8,
  put16, settings_seal, settings_valid, settings_compute_crc,
}
use drdro_mainboard.Settings.Load.{settings_load-newest_slot}
use drdro_mainboard.Crc.{settings_crc32, byte_range}

-- A memory whose slot A holds the defaults but for the active bank, and nothing else.
abbrev sample : Bytes
sample a =
    if ltb a 0x08004000
    then 255
    else if ltb a 0x0800408C
    then settings_seal (put8 settings_defaults 16 1) (a - 0x08004000)
    else 255

finds_slot : settings_newest_slot sample ≡ some 0
unfolding settings_newest_slot settings_valid settings_seal settings_compute_crc settings_defaults
    settings_crc32 byte_range
finds_slot = refl

-- An image of an older version, which ends before the network fields.
abbrev older : Bytes
older = put16 (put8 settings_defaults 121 9) 10 100

settings_load-newest_slot_example : settings_load sample ≡ elim (settings_newest_slot sample) [
  | none ↦ (false, settings_defaults)
  | some n ↦ (true, settings_load_one (slot_image sample n))
]
settings_load-newest_slot_example = settings_load-newest_slot sample
