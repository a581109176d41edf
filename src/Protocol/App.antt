-- ===== src/Protocol/App.antt =====
-- firmware/app/src/Protocol.c: the state that the commands share.
use drdro_mainboard.Base.{ℕ, Bool, Bytes, List}
use drdro_mainboard.Base.{le16, ◌==◌, if◌then◌else◌, ◌+◌, ◌*◌}
use drdro_mainboard.Scales.{set_scale_filter}
use drdro_mainboard.Protocol.Registry.{off_fast_data, off_scales, input_size}
use drdro_mainboard.Hal.{FlashHal}
use drdro_mainboard.FwUpdate.Session.{FwSession}
use drdro_mainboard.Aout.{Bus, Dac}
use drdro_mainboard.BlCli.Text.{Response, resp_err}
use drdro_mainboard.Protocol.Values.{Numbers}

pub data Action : Type 0 where
  act_none act_handoff : Action

-- What the commands use that is not theirs: the flash, the bus of the converter, the numbers of the
-- C library, FW_VERSION, whether the network is up and whether the update's socket can be opened.
pub record Outside (D B : Type 0) : Type 0 where
  pub hal : FlashHal D
  pub i2c : Bus B
  pub c_lib : Numbers
  pub fw_version : List ℕ
  pub leased : Bool
  pub listening : Bool

-- `resp` is what has been sent on the transport, with its `crc`, and `last` its last command; the
-- registry; the converter; the levels of the pins of the motor port; the register CCMR1 of each
-- encoder timer; the update session, which holds the flash; BOOT_FLAG; `sAction` and `sRxLines`.
pub record App (D B : Type 0) : Type 0 where
  pub resp : Response
  pub last : List ℕ
  pub registry : Bytes
  pub dac : Dac B
  pub pins : ℕ → Bool
  pub ccmr1 : ℕ → ℕ
  pub session : FwSession D
  pub boot_flag : ℕ
  pub action : Action
  pub rx_lines : ℕ

module _ {D B : Type 0} where
  abbrev pub say : (Response → Response) → App D B → App D B
  say f c = record c { resp = f c.resp }

  -- `respError`, and the return after it.
  abbrev pub refuse : List ℕ → App D B → App D B
  refuse reason = say (resp_err reason)

  abbrev pub device : App D B → D
  device c = c.session.flash.dev

  abbrev pub with_device : D → App D B → App D B
  with_device d c = record c {
    session = record c.session { flash = record c.session.flash { dev = d } };
  }

  -- `setScaleFilter` on the timer of scale `i`, with the registry's filter.
  unfoldable pub apply_filter : ℕ → App D B → App D B
  apply_filter i c = record c {
    ccmr1 = λ k.
        if k == i
        then set_scale_filter (le16 c.registry (off_scales + 22 + i * input_size)) (c.ccmr1 k)
        else c.ccmr1 k;
  }

  abbrev pub servo_mode_of : App D B → ℕ
  servo_mode_of c = le16 c.registry (off_fast_data + 64)
