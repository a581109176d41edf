-- ===== src/Ymodem/Tests.antt =====
-- A batch of two blocks on the simulated part, and the check value of the CRC.
use drdro_mainboard.Base.{
  ℕ, ◌≡◌, refl, true, false, Bytes, List, [], ◌∷◌, replicate, some, none, arith,
}
use drdro_mainboard.Layout.{sector_begin}
use drdro_mainboard.Hal.Sim.{sim, sim-IsFlash, Part}
use drdro_mainboard.Flash.{Session}
use drdro_mainboard.Ymodem.{
  Line, bad, crc16, parse_size, skip_name, size_digits, Transfer, going, ym_rounds, ymodem_receive,
}
use drdro_mainboard.Ymodem.Frame.{IsLine}
use drdro_mainboard.Ymodem.Account.{Accounted}
use drdro_mainboard.Ymodem.Rounds.{ymodem_receive-Accounted}
use drdro_mainboard.Ymodem.Stall.{ym_rounds-stalled}

-- The message "123456789".
crc16_check_value :
    crc16 (0x31 ∷ 0x32 ∷ 0x33 ∷ 0x34 ∷ 0x35 ∷ 0x36 ∷ 0x37 ∷ 0x38 ∷ 0x39 ∷ []) ≡ 0x31C3
unfolding crc16
crc16_check_value = refl

abbrev erased_flash : Session Bytes
erased_flash = record {
  dev = λ a. 255;
  base = 0;
  sector = 0;
  erased = false;
  fail_phase = 0;
  fail_addr = 0;
  fail_hal = 0;
}

-- The file "fw" of 200 bytes.
abbrev file_header : List ℕ
file_header = 0x66 ∷ 0x77 ∷ 0x00 ∷ 0x32 ∷ 0x30 ∷ 0x30 ∷ replicate 122 0

file_header_size : parse_size file_header ≡ 200
unfolding parse_size skip_name size_digits
file_header_size = refl

abbrev file_blocks : List (List ℕ)
file_blocks = replicate 128 0xA5 ∷ replicate 128 0x5A ∷ []

-- A locked part whose every byte is in use.
abbrev used_flash : Session Part
used_flash = record {
  dev = record { memory = λ a. 0; is_open = false };
  base = 0;
  sector = 0;
  erased = false;
  fail_phase = 0;
  fail_addr = 0;
  fail_hal = 0;
}

-- A line with a header byte, a timeout and a CAN.
abbrev noise : Line
noise = some 0x01 ∷ some 0x00 ∷ none ∷ some 0x18 ∷ []

noise-IsLine : IsLine noise
noise-IsLine = (omega arith, (omega arith, (tt, (omega arith, tt))))

ymodem_receive-Accounted_example :
    Accounted
      (sim true)
      noise
      (sector_begin 6)
      (ymodem_receive (sim true) 9 (sector_begin 6) 6 noise erased_flash).1
ymodem_receive-Accounted_example =
    ymodem_receive-Accounted (sim true) (sim-IsFlash true) 9 6 noise erased_flash (omega arith)
      (omega arith) noise-IsLine

abbrev waiting : Transfer Bytes
waiting = record { flash = erased_flash; line = []; sent = []; written = 128; expected = 2 }

ym_rounds-stalled_example :
    (t' : Transfer Bytes) × (ym_rounds (sim true) 100 (going bad waiting) ≡ going bad t')
    × (t'.line ≡ [])
    × (t'.flash ≡ waiting.flash)
ym_rounds-stalled_example = ym_rounds-stalled (sim true) 100 waiting refl
