-- ===== src/BlCli/Tests.antt =====
-- The command line on the simulated part: numbers, a framed answer, checksums of requests.
use drdro_mainboard.Base.{ℕ, ◌≡◌, refl, true, false, Bytes, List, [], ◌∷◌, ◌++◌, arith}
use drdro_mainboard.Hal.Sim.{sim}
use drdro_mainboard.Flash.{Session}
use drdro_mainboard.BlCli.Text.{codes, utoa10, utoa_digits, cksum, resp_begin, resp_err, resp_end}
use drdro_mainboard.BlCli.Commands.{Cli, answered, say}
use drdro_mainboard.BlCli.Process.{words, split_words, process_line}
use drdro_mainboard.BlCli.Answer.{Framed, process_line-Framed}
use drdro_mainboard.BlCli.Checksum.{with_checksum, process_line-damaged}

words_of_a_line : words (codes "  bank 1 ") ≡ codes "bank" ∷ codes "1" ∷ []
unfolding words split_words
words_of_a_line = refl

decimal : utoa10 1024 ≡ codes "1024"
unfolding utoa10 utoa_digits
decimal = refl

abbrev blank : Session Bytes
blank = record {
  dev = λ a. 255;
  base = 0;
  sector = 0;
  erased = false;
  fail_phase = 0;
  fail_addr = 0;
  fail_hal = 0;
}

abbrev console : Cli Bytes
console = record {
  machine = record { flash = blank; hw_inited = true };
  resp = record { out = []; crc = 0 };
  reset_pending = false;
  line = [];
}

abbrev name : List ℕ
name = codes "bootloader"

process_line-Framed_example :
    Framed (sim true) name 8 console (process_line (sim true) name 8 (codes "flash 1") console)
process_line-Framed_example = process_line-Framed (sim true) name 8 (codes "flash 1") console

process_line-damaged_example :
    process_line
      (sim true)
      name
      8
      (with_checksum (codes "b" ++ b'0' ∷ []) (cksum (codes "b" ++ b'1' ∷ [])))
      console
    ≡ answered (say (λ r. resp_end (resp_err (codes "bad checksum") (resp_begin r))) console)
process_line-damaged_example =
    process_line-damaged (sim true) name 8 (codes "b") [] b'1' b'0' console
      ((λ e. omega (arith, e), omega arith), ((λ e. omega (arith, e), omega arith), tt))
      ((λ e. omega (arith, e), omega arith), ((λ e. omega (arith, e), omega arith), tt))
      (λ e. omega (arith, e))
