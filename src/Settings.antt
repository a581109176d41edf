-- ===== src/Settings.antt =====
-- firmware/shared/Settings.h: the persistent settings image, byte by byte. A `settings_t` is its
-- bytes from offset 0 to 139 (what lies beyond is not part of the object); a flash image is
-- memory seen from the slot's base. A float field is its bit pattern.
mod Fields
pub mod Image
pub mod Load
pub mod Newest
pub mod Save
pub mod Range
mod Tests
pub use Fields.*
use drdro_mainboard.Base.{
  ℕ, ◌+◌, ◌-◌, ◌*◌, ◌^◌, Bool, true, false, ◌&&◌, Option, none, some, ltb, leb, ◌==◌, if◌then◌else◌,
  u32, Bytes, min,
}
use drdro_mainboard.Crc.{settings_crc32, byte_range}

-- `settings_compute_crc`: over the bytes from 4 up to the recorded size.
unfoldable pub settings_compute_crc : Bytes → ℕ
settings_compute_crc s = settings_crc32 (byte_range s 4 (u32 (used_size s + 2 ^ 32 - 4)))

-- `settings_valid`.
unfoldable pub settings_valid : Bytes → Bool
settings_valid s =
    if magic s == settings_magic
    then (if ltb (used_size s) settings_used_min
        then false
        else if ltb settings_used_max (used_size s)
        then false
        else stored_crc s == settings_compute_crc s)
    else false

-- `settings_seal`: magic, version, size, then the CRC of what stands there.
unfoldable pub settings_seal : Bytes → Bytes
settings_seal s =
    let t = put16 (put16 (put32 s 4 settings_magic) 8 1) 10 settings_size in
    put32 t 0 (settings_compute_crc t)

-- The fields that `settings_defaults` sets to something else than 0; all others are zeroed.
unfoldable pub settings_defaults_fields : Bytes
settings_defaults_fields =
    let zeroed : Bytes = λ i. 0 in
    let core = put8 zeroed 17 0xFF in
    let num = put32 (put32 (put32 (put32 (put32 core 28 1) 32 1) 36 1) 40 1) 44 1 in
    let den = put32 (put32 (put32 (put32 (put32 num 48 100) 52 100) 56 100) 60 100) 64 100 in
    let filter = put16 (put16 (put16 (put16 (put16 den 78 5) 80 5) 82 5) 84 5) 86 5 in
    let servo = put32 (put32 filter 100 0x44340000) 104 0x42F00000 in
    let net = put16 (put8 (put8 servo 120 1) 121 5) 122 5555 in
    let mask = put8 (put8 (put8 net 128 255) 129 255) 130 255 in put32 mask 136 115200

-- `settings_defaults`.
unfoldable pub settings_defaults : Bytes
unfolding settings_defaults_fields
settings_defaults = settings_seal settings_defaults_fields

-- `settings_load_one`: the shared prefix of the image over the defaults.
unfoldable pub settings_load_one : Bytes → Bytes
settings_load_one src =
    let n = min (used_size src) settings_size in
    put16 (λ i. if ltb i n then src i else settings_defaults i) 10 settings_size

-- `(int32_t)(b->seq - a->seq) >= 0`.
unfoldable pub is_newer : ℕ → ℕ → Bool
is_newer b a = ltb (u32 (b + 2 ^ 32 - a)) (2 ^ 31)

-- `settings_pick`: the return code and what `*out` holds.
unfoldable pub settings_pick : Bytes → Bytes → Bool × Bytes
settings_pick a b =
    if settings_valid a
    then (if settings_valid b
        then (true, settings_load_one (if is_newer (seq b) (seq a) then b else a))
        else (true, settings_load_one a))
    else if settings_valid b
    then (true, settings_load_one b)
    else (false, settings_defaults)

-- `SETTINGS_SLOT_BASE`, `SETTINGS_SLOT_SECTOR` and `SETTINGS_SLOT_IMG`.
abbrev pub slot_base : ℕ → ℕ
slot_base n = if n == 0 then 0x08004000 else 0x08008000

abbrev pub slot_sector : ℕ → ℕ
slot_sector n = if n == 0 then 1 else 2

abbrev pub slot_image : Bytes → ℕ → Bytes
slot_image memory n i = memory (slot_base n + i)

-- `settings_load`, from the flash memory.
unfoldable pub settings_load : Bytes → Bool × Bytes
settings_load memory = settings_pick (slot_image memory 0) (slot_image memory 1)

-- `settings_newest_slot`; `none` is its -1.
unfoldable pub settings_newest_slot : Bytes → Option ℕ
settings_newest_slot memory =
    let va = settings_valid (slot_image memory 0) in
    let vb = settings_valid (slot_image memory 1) in
    if va
    then (if vb
        then some
            (if is_newer (seq (slot_image memory 1)) (seq (slot_image memory 0)) then 1 else 0)
        else some 0)
    else if vb
    then some 1
    else none

-- `settings_prepare` once the newest slot is known: the number after it, in the other slot.
abbrev pub prepare_after : Bytes → Bytes → Option ℕ → ℕ × Bytes
prepare_after memory s none = (0, settings_seal (put32 s 12 1))
prepare_after memory s (some n) =
    (1 - n, settings_seal (put32 s 12 (u32 (seq (slot_image memory n) + 1))))

-- `settings_prepare`: the slot to program, and the struct with its new number, sealed.
unfoldable pub settings_prepare : Bytes → Bytes → ℕ × Bytes
settings_prepare memory s = prepare_after memory s (settings_newest_slot memory)
