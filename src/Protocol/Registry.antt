-- ===== src/Protocol/Registry.antt =====
-- firmware/app/src/Protocol.c: the registry of variables. The registry (`rampsSharedData_t` of
-- firmware/app/include/Ramps.h) is its bytes; an offset is that of the ABI of the target, on which a
-- pointer, a float and a word have four bytes.
use drdro_mainboard.Base.{
  ℕ, ◌+◌, ◌*◌, Bool, true, false, if◌then◌else◌, Bytes, le16, le32, List, [], ◌∷◌, ◌++◌, Option,
  some, none,
}
use drdro_mainboard.Scales.{scales_filter_max}
use drdro_mainboard.Settings.{put8, put16, put32}
use drdro_mainboard.SettingsStore.Shared.{Scale, Shared}
use drdro_mainboard.BlCli.Text.{codes, str_eq}

pub data VarType : Type 0 where
  vt_i32 vt_u32 vt_f32 vt_u16 vt_ip4 vt_mac vt_upt : VarType

-- `umax` is 0 where there is no bound.
pub record VarEntry : Type 0 where
  pub name : List ℕ
  pub offset : ℕ
  pub var_type : VarType
  pub count : ℕ
  pub stride : ℕ
  pub read_only : Bool
  pub umax : ℕ

abbrev pub scales_count : ℕ
scales_count = 5

-- `offsetof(rampsSharedData_t, ...)`: `servo`, `scales` with the size of `input_t`, `fastData`, `din`,
-- `aout`, `net` and `diag`; `scaleCount` and `comBaud`.
abbrev pub off_servo : ℕ
off_servo = 16

abbrev pub off_scales : ℕ
off_scales = 52

abbrev pub input_size : ℕ
input_size = 28

abbrev pub off_fast_data : ℕ
off_fast_data = 192

abbrev pub off_din : ℕ
off_din = 260

abbrev pub off_aout : ℕ
off_aout = 288

abbrev pub off_net : ℕ
off_net = 292

abbrev pub off_diag : ℕ
off_diag = 332

abbrev pub off_scale_count : ℕ
off_scale_count = 340

abbrev pub off_com_baud : ℕ
off_com_baud = 344

-- A row of the table.
abbrev pub scalar : List ℕ → ℕ → VarType → Bool → ℕ → VarEntry
scalar n off t ro limit = record {
  name = n;
  offset = off;
  var_type = t;
  count = 1;
  stride = 0;
  read_only = ro;
  umax = limit;
}

abbrev pub array : List ℕ → ℕ → VarType → ℕ → ℕ → Bool → ℕ → VarEntry
array n off t cells step ro limit = record {
  name = n;
  offset = off;
  var_type = t;
  count = cells;
  stride = step;
  read_only = ro;
  umax = limit;
}

abbrev pub of_scales : List ℕ → ℕ → VarType → Bool → ℕ → VarEntry
of_scales n off t ro limit = array n (off_scales + off) t scales_count input_size ro limit

unfoldable pub k_vars : List VarEntry
k_vars =
    scalar (codes "scales.count") off_scale_count vt_u16 true 0
    ∷ of_scales (codes "scales.pos") 4 vt_i32 false 0
    ∷ of_scales (codes "scales.speed") 8 vt_i32 true 0
    ∷ of_scales (codes "scales.num") 12 vt_i32 false 0
    ∷ of_scales (codes "scales.den") 16 vt_i32 false 0
    ∷ of_scales (codes "scales.sync") 20 vt_u16 false 0
    ∷ of_scales (codes "scales.filt") 22 vt_u16 false scales_filter_max
    ∷ of_scales (codes "scales.dir") 24 vt_u16 false 1
    ∷ scalar (codes "servo.max") (off_servo + 0) vt_f32 false 0
    ∷ scalar (codes "servo.acc") (off_servo + 12) vt_f32 false 0
    ∷ scalar (codes "servo.jog") (off_servo + 8) vt_f32 false 0
    ∷ scalar (codes "servo.idx") (off_servo + 16) vt_f32 false 0
    ∷ scalar (codes "servo.mode") (off_fast_data + 64) vt_u16 false 0
    ∷ scalar (codes "servo.pos") (off_servo + 28) vt_u32 true 0
    ∷ scalar (codes "servo.speed") (off_servo + 4) vt_f32 true 0
    ∷ scalar (codes "servo.tgt") (off_servo + 20) vt_i32 false 0
    ∷ scalar (codes "din.state") (off_din + 0) vt_u16 true 0
    ∷ array (codes "din.cnt") (off_din + 4) vt_u32 6 4 true 0
    ∷ scalar (codes "din.deb") (off_din + 2) vt_u16 false 250
    ∷ array (codes "aout.raw") (off_aout + 0) vt_u16 2 2 false 4095
    ∷ scalar (codes "net.state") (off_net + 18) vt_u16 true 0
    ∷ scalar (codes "net.mac") (off_net + 12) vt_mac true 0
    ∷ scalar (codes "net.addr") (off_net + 0) vt_ip4 true 0
    ∷ scalar (codes "net.mask") (off_net + 4) vt_ip4 true 0
    ∷ scalar (codes "net.gw") (off_net + 8) vt_ip4 true 0
    ∷ scalar (codes "net.dhcp") (off_net + 20) vt_u16 false 1
    ∷ scalar (codes "net.port") (off_net + 22) vt_u16 false 65535
    ∷ scalar (codes "net.cfg.ip") (off_net + 26) vt_ip4 false 0
    ∷ scalar (codes "net.cfg.mask") (off_net + 30) vt_ip4 false 0
    ∷ scalar (codes "net.cfg.gw") (off_net + 34) vt_ip4 false 0
    ∷ scalar (codes "com.baud") off_com_baud vt_u32 false 2000000
    ∷ scalar (codes "diag.cycles") (off_fast_data + 56) vt_u32 true 0
    ∷ scalar (codes "diag.interval") (off_fast_data + 60) vt_u32 true 0
    ∷ scalar (codes "diag.cycmax") (off_diag + 4) vt_u32 false 0
    ∷ scalar (codes "diag.uptime") (off_diag + 0) vt_upt true 0
    ∷ []

-- The loop of `findVar`.
unfoldable pub find_in : List VarEntry → List ℕ → Option VarEntry
find_in [] name = none
find_in (v ∷ vs) name = let rest = find_in vs name in if str_eq name v.name then some v else rest

abbrev pub find_var : List ℕ → Option VarEntry
find_var = find_in k_vars

unfoldable pub field_ptr : VarEntry → ℕ → ℕ
field_ptr v idx = v.offset + idx * v.stride

-- The fields of the registry that the settings keep, and the registry with them stored in it.
unfoldable pub shared_of : Bytes → Shared
shared_of r = record {
  scales = λ i. record {
    sync_ratio_num = le32 r (off_scales + 12 + i * input_size);
    sync_ratio_den = le32 r (off_scales + 16 + i * input_size);
    sync_enable = le16 r (off_scales + 20 + i * input_size);
    filter_value = le16 r (off_scales + 22 + i * input_size);
    dir_invert = le16 r (off_scales + 24 + i * input_size);
  };
  max_speed = le32 r off_servo;
  acceleration = le32 r (off_servo + 12);
  jog_speed = le32 r (off_servo + 8);
  index_speed = le32 r (off_servo + 16);
  servo_mode = le16 r (off_fast_data + 64);
  aout_raw = λ i. le16 r (off_aout + 2 * i);
  dhcp = le16 r (off_net + 20);
  debounce_ms = le16 r (off_din + 2);
  port = le16 r (off_net + 22);
  cfg_ip = λ i. r (off_net + 26 + i);
  cfg_mask = λ i. r (off_net + 30 + i);
  cfg_gw = λ i. r (off_net + 34 + i);
  com_baud = le32 r off_com_baud;
}

pub data Width : Type 0 where
  one_byte two_bytes four_bytes : Width

-- A store to the registry.
pub record Store : Type 0 where
  pub width : Width
  pub addr : ℕ
  pub value : ℕ

abbrev pub store_width : Width → ℕ → ℕ → Bytes → Bytes
store_width one_byte a v r = put8 r a v
store_width two_bytes a v r = put16 r a v
store_width four_bytes a v r = put32 r a v

unfoldable pub put_stores : List Store → Bytes → Bytes
put_stores [] r = r
put_stores (s ∷ ss) r = put_stores ss (store_width s.width s.addr s.value r)

abbrev pub byte_at : ℕ → ℕ → Store
byte_at a v = record { width = one_byte; addr = a; value = v }

abbrev pub half_at : ℕ → ℕ → Store
half_at a v = record { width = two_bytes; addr = a; value = v }

abbrev pub word_at : ℕ → ℕ → Store
word_at a v = record { width = four_bytes; addr = a; value = v }

abbrev pub scale_stores : Scale → ℕ → List Store
scale_stores c a =
    word_at (a + 12) c.sync_ratio_num
    ∷ word_at (a + 16) c.sync_ratio_den
    ∷ half_at (a + 20) c.sync_enable
    ∷ half_at (a + 22) c.filter_value
    ∷ half_at (a + 24) c.dir_invert
    ∷ []

abbrev pub address_stores : (ℕ → ℕ) → ℕ → List Store
address_stores v a =
    byte_at a (v 0) ∷ byte_at (a + 1) (v 1) ∷ byte_at (a + 2) (v 2) ∷ byte_at (a + 3) (v 3) ∷ []

-- The stores of the fields that the settings keep.
unfoldable pub shared_stores : Shared → List Store
shared_stores sh =
    scale_stores (sh.scales 0) off_scales
    ++ scale_stores (sh.scales 1) (off_scales + input_size)
    ++ scale_stores (sh.scales 2) (off_scales + 2 * input_size)
    ++ scale_stores (sh.scales 3) (off_scales + 3 * input_size)
    ++ scale_stores (sh.scales 4) (off_scales + 4 * input_size)
    ++ word_at (off_servo + 0) sh.max_speed
      ∷ word_at (off_servo + 12) sh.acceleration
      ∷ word_at (off_servo + 8) sh.jog_speed
      ∷ word_at (off_servo + 16) sh.index_speed
      ∷ half_at (off_fast_data + 64) sh.servo_mode
      ∷ half_at (off_aout + 0) (sh.aout_raw 0)
      ∷ half_at (off_aout + 2) (sh.aout_raw 1)
      ∷ half_at (off_net + 20) sh.dhcp
      ∷ half_at (off_din + 2) sh.debounce_ms
      ∷ half_at (off_net + 22) sh.port
      ∷ word_at off_com_baud sh.com_baud
      ∷ (address_stores sh.cfg_ip (off_net + 26)
          ++ address_stores sh.cfg_mask (off_net + 30)
          ++ address_stores sh.cfg_gw (off_net + 34))

unfoldable pub put_shared : Shared → Bytes → Bytes
unfolding put_stores shared_stores
put_shared sh r = put_stores (shared_stores sh) r
