-- ===== src/Protocol/Trials.antt =====
-- Lines of the application's command line, on a board with a simulated flash and a bus that records.
use drdro_mainboard.Base.{
  ℕ, ◌+◌, ◌-◌, ◌*◌, ◌≡◌, refl, true, false, ◌==◌, if◌then◌else◌, Bytes, List, [], ◌∷◌, ◌++◌, u8,
  some, All, arith,
}
use drdro_mainboard.Hal.Sim.{sim}
use drdro_mainboard.Aout.{aout_write}
use drdro_mainboard.Aout.Frame.{recorder}
use drdro_mainboard.FwUpdate.Session.{fw_idle, no_reason}
use drdro_mainboard.BlCli.Text.{
  codes, utoa10, utoa_digits, cksum, cksum_from, to_hex2, hex_digit, resp_begin, resp_err, resp_end,
  tx_str,
}
use drdro_mainboard.BlCli.Process.{split_star, words, split_words}
use drdro_mainboard.BlCli.Checksum.{with_checksum}
use drdro_mainboard.Protocol.Registry.{k_vars, find_in, field_ptr}
use drdro_mainboard.Protocol.Values.{
  Numbers, is_digit, parse_ip4, format_ip4, format_at, format_field, write_at, write_field,
}
use drdro_mainboard.Protocol.App.{App, Outside, act_none, say}
use drdro_mainboard.Protocol.Variables.{
  emit_fields, emit_var, cmd_get, cmd_set, set_element, set_scalar, live_apply,
}
use drdro_mainboard.Protocol.Process.{
  begin_response, run_command, run_argv, run_new, run_last, protocol_process_line,
}
use drdro_mainboard.Protocol.Writable.{KeepsOthers, KeepsReadOnly}
use drdro_mainboard.Protocol.Answer.{
  protocol_process_line-framed, protocol_process_line-read_only, protocol_process_line-motion_pins,
}
use drdro_mainboard.Protocol.Repeat.{
  IsLine, protocol_process_line-repeat, protocol_process_line-damaged,
}
use drdro_mainboard.Protocol.Elements.{view}
use drdro_mainboard.Protocol.Stores.{cmd_set-stores}
use drdro_mainboard.Protocol.Registry.{VarEntry, scalar, vt_u16}
use drdro_mainboard.Base.{le16}
use drdro_mainboard.Protocol.Refines.{TableStep, cmd_set-TableStep}
use drdro_mainboard.Protocol.Address.{parse_ip4-format_ip4}

-- Decimal numbers, whatever the base.
abbrev number : ℕ → List ℕ → ℕ × List ℕ
number v [] = (v, [])
number v (b ∷ s) =
    let rest = number (v * 10 + (b - b'0')) s in if is_digit b then rest else (v, b ∷ s)

abbrev decimal_only : Numbers
decimal_only = record {
  strtol = λ base s. number 0 s;
  strtoul = λ base s. number 0 s;
  strtof = number 0;
  print_float = utoa10;
}

abbrev outside : Outside Bytes (List (ℕ × List ℕ))
outside = record {
  hal = sim true;
  i2c = recorder true;
  c_lib = decimal_only;
  fw_version = codes "2.0";
  leased = true;
  listening = true;
}

-- A registry that holds the low byte of each address, with servo mode 0.
abbrev board : App Bytes (List (ℕ × List ℕ))
board = record {
  resp = record { out = []; crc = 0 };
  last = [];
  registry = λ a. if a == 256 then 0 else if a == 257 then 0 else u8 a;
  dac = record { bus = []; present = true };
  pins = λ k. false;
  ccmr1 = λ k. 0;
  session = record {
    flash = record { dev = λ a. 255; base = 0; sector = 0; erased = false };
    state = fw_idle;
    reason = no_reason;
    bank = 0;
    size = 0;
    crc_want = 0;
    received = 0;
    pend = [];
    written = 0;
    crc_run = 0;
    socket_open = false;
  };
  boot_flag = 0;
  action = act_none;
  rx_lines = 0;
}

abbrev run : List ℕ → App Bytes (List (ℕ × List ℕ)) → App Bytes (List (ℕ × List ℕ))
run = protocol_process_line outside

abbrev moving : App Bytes (List (ℕ × List ℕ))
moving = record board { registry = λ a. if a == 256 then 1 else 0 }

-- A value that is set is read; the second output gets the code of its half scale.
set_then_get :
    (run
      (codes "get aout.raw")
      (run (codes "set aout.raw 1 2048") (record board { registry = λ a. 0 }))).resp.out
    ≡ codes "crc=00\n\naout.raw=0,2048\ncrc=60\n\n"
unfolding protocol_process_line run_new run_last run_argv run_command cmd_get cmd_set set_element
    set_scalar live_apply write_field write_at field_ptr k_vars find_in emit_var emit_fields
    format_field format_at utoa10 utoa_digits tx_str resp_begin resp_end resp_err cksum_from to_hex2
    hex_digit words split_words split_star aout_write
set_then_get = refl

too_big :
    (run (codes "set net.dhcp 2") board).resp.out ≡ codes "error=value out of range\ncrc=1C\n\n"
unfolding protocol_process_line run_new run_last run_argv run_command cmd_get cmd_set set_element
    set_scalar live_apply write_field write_at field_ptr k_vars find_in emit_var emit_fields
    format_field format_at utoa10 utoa_digits tx_str resp_begin resp_end resp_err cksum_from to_hex2
    hex_digit words split_words split_star aout_write
too_big = refl

abbrev sta : List ℕ
sta = codes "sta"

sta-IsLine : IsLine sta
sta-IsLine = (
  (
    (λ e. omega (arith, e), omega arith),
    ((λ e. omega (arith, e), omega arith), ((λ e. omega (arith, e), omega arith), tt)),
  ),
  omega arith,
)

protocol_process_line-framed_example :
    (body : List ℕ) × ((run (codes "fw.status") board).resp.out
      ≡ [] ++ (body ++ (codes "crc=" ++ (to_hex2 (cksum body) ++ codes "\n\n"))))
protocol_process_line-framed_example =
    protocol_process_line-framed outside (codes "fw.status") board

protocol_process_line-read_only_example :
    let m' = (run (codes "set servo.pos 5") board).registry in
    KeepsOthers board.registry m' × All (KeepsReadOnly board.registry m') k_vars
protocol_process_line-read_only_example =
    protocol_process_line-read_only outside (codes "set servo.pos 5") board

protocol_process_line-motion_pins_example :
    (run (codes "dout ena 1") moving).pins 10 ≡ moving.pins 10
protocol_process_line-motion_pins_example =
    protocol_process_line-motion_pins outside (codes "dout ena 1") moving 10 refl refl

protocol_process_line-repeat_example : run [] (run sta board) ≡ run sta (run sta board)
unfolding split_star
protocol_process_line-repeat_example =
    protocol_process_line-repeat outside sta board sta-IsLine refl

protocol_process_line-damaged_example :
    run (with_checksum (codes "sua") (cksum sta)) board
    ≡ say (λ r. resp_end (resp_err (codes "bad checksum") r)) (begin_response outside board)
unfolding cksum cksum_from to_hex2 hex_digit
protocol_process_line-damaged_example =
    protocol_process_line-damaged outside (codes "s") (codes "a") b't' b'u' board
      (
        (λ e. omega (arith, e), omega arith),
        ((λ e. omega (arith, e), omega arith), ((λ e. omega (arith, e), omega arith), tt)),
      )
      (
        (
          (λ e. omega (arith, e), omega arith),
          (
            (λ e. omega (arith, e), omega arith),
            (
              (λ e. omega (arith, e), omega arith),
              (
                (λ e. omega (arith, e), omega arith),
                ((λ e. omega (arith, e), omega arith), ((λ e. omega (arith, e), omega arith), tt)),
              ),
            ),
          ),
        ),
        omega arith,
      )
      (λ e. omega (arith, e))

parse_ip4-format_ip4_example :
    parse_ip4 (format_ip4 (λ i. 250) 292) ≡ some (250 ∷ 250 ∷ 250 ∷ 250 ∷ [])
parse_ip4-format_ip4_example = parse_ip4-format_ip4 (λ i. 250) 292 (λ i. omega arith)

cmd_set-TableStep_example :
    TableStep
      (codes "aout.raw")
      (view board.registry)
      (view (cmd_set outside (codes "aout.raw" ∷ codes "1" ∷ codes "2048" ∷ []) board).registry)
cmd_set-TableStep_example =
    cmd_set-TableStep outside (codes "aout.raw") (codes "1" ∷ codes "2048" ∷ []) board

abbrev net_port : VarEntry
net_port = scalar (codes "net.port") 314 vt_u16 false 65535

cmd_set-stores_example :
    le16
      (cmd_set outside (codes "net.port" ∷ codes "8080" ∷ []) board).registry
      (field_ptr net_port 0)
    ≡ 8080
unfolding find_in k_vars
cmd_set-stores_example =
    cmd_set-stores outside net_port (codes "net.port") (codes "8080") [] 8080 board refl refl refl
      refl refl (omega arith) refl
