-- ===== src/BlCli/Process.antt =====
-- firmware/bootloader/src/bl_cli.c: a line from its checksum to its answer, and the reader of lines.
use drdro_mainboard.Base.{
  ℕ, zero, suc, false, ◌||◌, ltb, ◌==◌, if◌then◌else◌, List, [], ◌∷◌, ◌++◌, length, take, Option,
  some, none,
}
use drdro_mainboard.Hal.{FlashHal}
use drdro_mainboard.Ymodem.{Rx, rx}
use drdro_mainboard.BlCli.Text.{
  codes, str_eq, parse_hex2, cksum, Response, resp_begin, resp_kv, resp_err, resp_end,
}
use drdro_mainboard.BlCli.Commands.{
  Cli, Reply, answered, started, receiving, Args, say, cmd_version, cmd_reset, cmd_info, cmd_bank,
  cmd_boot_mode, cmd_erase, cmd_crc, cmd_flash, cmd_copy, cmd_boot, cmd_rollback,
}

abbrev pub cli_line_max : ℕ
cli_line_max = 64

-- A C string ends at its first NUL.
abbrev pub c_string : List ℕ → List ℕ
c_string [] = []
c_string (b ∷ s) = if b == 0 then [] else b ∷ c_string s

-- `strrchr(line, '*')`: what stands before and after the last star.
unfoldable pub split_star : List ℕ → Option (List ℕ × List ℕ)
split_star [] = none
split_star (b ∷ s) = elim (split_star s) [
  | some (before, after) ↦ some (b ∷ before, after)
  | none ↦ if b == b'*' then some ([], s) else none
]

-- The dash of the help texts, in UTF-8.
abbrev pub em_dash : List ℕ
em_dash = 0xE2 ∷ 0x80 ∷ 0x94 ∷ []

-- A word in front of others, where it is not empty.
abbrev pub push_word : List ℕ → List (List ℕ) → List (List ℕ)
push_word [] ws = ws
push_word (b ∷ w) ws = (b ∷ w) ∷ ws

-- The bytes up to the first space, and the words after it.
unfoldable pub split_words : List ℕ → List ℕ × List (List ℕ)
split_words [] = ([], [])
split_words (b ∷ s) =
    let (w, ws) = split_words s in if b == b' ' then ([], push_word w ws) else (b ∷ w, ws)

-- `strtok(line, " ")`, repeated: the words between spaces.
unfoldable pub words : List ℕ → List (List ℕ)
unfolding split_words
words s = let (w, ws) = split_words s in push_word w ws

-- The entries of `kCommands`.
pub record Entry (D : Type 0) : Type 0 where
  pub name : List ℕ
  pub fn : Args → Cli D → Reply D
  pub help : List ℕ

module _ {D : Type 0} (hal : FlashHal D) (bl_version : List ℕ) (rounds : ℕ) where
  abbrev pub k_commands : List (Entry D)
  k_commands =
      record {
        name = codes "version";
        fn = λ a c. answered (cmd_version bl_version a c);
        help = codes "bootloader version";
      }
      ∷ record {
        name = codes "info";
        fn = λ a c. answered (cmd_info hal a c);
        help = codes "banks: mode/active/loaded/validity";
      }
      ∷ record {
        name = codes "bank";
        fn = λ a c. answered (cmd_bank hal a c);
        help = codes "bank [<0|1>] " ++ em_dash ++ codes " info, or select active (persist)";
      }
      ∷ record {
        name = codes "boot.mode";
        fn = λ a c. answered (cmd_boot_mode hal a c);
        help = codes "boot.mode <app|bl> " ++ em_dash ++ codes " persistent boot target";
      }
      ∷ record {
        name = codes "flash";
        fn = cmd_flash hal rounds;
        help = codes "flash <0|1> " ++ em_dash ++ codes " receive image into a bank (YMODEM)";
      }
      ∷ record {
        name = codes "erase";
        fn = λ a c. answered (cmd_erase hal a c);
        help = codes "erase <0|1>";
      }
      ∷ record {
        name = codes "crc";
        fn = λ a c. answered (cmd_crc hal a c);
        help = codes "crc <0|1> " ++ em_dash ++ codes " CRC32 of a bank region";
      }
      ∷ record {
        name = codes "copy";
        fn = λ a c. answered (cmd_copy hal a c);
        help = codes "copy active bank into Exec";
      }
      ∷ record {
        name = codes "rollback";
        fn = cmd_rollback hal;
        help = codes "switch to the other bank and boot it";
      }
      ∷ record {
        name = codes "boot";
        fn = cmd_boot hal;
        help = codes "run the app (jump; no reset)";
      }
      ∷ record {
        name = codes "reset";
        fn = λ a c. answered (cmd_reset a c);
        help = codes "system reset";
      }
      ∷ []

  -- The loop of `cmd_help`.
  unfoldable pub help_lines : List (Entry D) → Response → Response
  help_lines [] r = r
  help_lines (e ∷ es) r = help_lines es (resp_kv e.name e.help r)

  unfoldable pub cmd_help : Args → Cli D → Cli D
  unfolding help_lines
  cmd_help args = say (help_lines k_commands)

  -- The first entry of that name.
  unfoldable pub run_command : List (Entry D) → List ℕ → Args → Cli D → Reply D
  run_command [] name args c = answered (say (resp_err (codes "unknown command")) c)
  run_command (e ∷ es) name args c =
      let rest = run_command es name args c in if str_eq name e.name then e.fn args c else rest

  -- `resp_end` after a command that comes back.
  abbrev pub ended_with : Reply D → Reply D
  ended_with (answered c) = answered (say resp_end c)
  ended_with (started sp pc c) = started sp pc c
  ended_with (receiving c) = receiving c

  -- The words of a line whose checksum, if it has one, is right. At most four are kept.
  unfoldable pub run_words : List (List ℕ) → Cli D → Reply D
  run_words [] c = answered (say (resp_err (codes "empty command")) c)
  run_words (w ∷ args) c =
      if str_eq w (codes "help")
      then answered (cmd_help args c)
      else run_command k_commands w args c

  abbrev pub run_line : List ℕ → Cli D → Reply D
  run_line line = run_words (take 4 (words line))

  abbrev pub bad_checksum : Cli D → Reply D
  bad_checksum c = answered (say (resp_err (codes "bad checksum")) c)

  abbrev pub with_sum : List ℕ → Option ℕ → Cli D → Reply D
  with_sum before none c = bad_checksum c
  with_sum before (some want) c = if cksum before == want then run_line before c else bad_checksum c

  abbrev pub with_star : List ℕ → Option (List ℕ × List ℕ) → Cli D → Reply D
  with_star line none c = run_line line c
  with_star line (some (before, after)) c = with_sum before (parse_hex2 after) c

  -- The optional `*HH`: validated, then stripped.
  unfoldable pub checked_line : List ℕ → Cli D → Reply D
  checked_line line = with_star line (split_star line)

  unfoldable pub process_line : List ℕ → Cli D → Reply D
  process_line line c = ended_with (checked_line (c_string line) (say resp_begin c))

-- The reader with the bytes of its line so far; or the board has been reset, or runs an application,
-- or is still in a transfer.
pub data Running (D : Type 0) : Type 0 where
  reading : List ℕ → Cli D → Running D
  was_reset : Cli D → Running D
  left : ℕ → ℕ → Cli D → Running D
  in_transfer : Cli D → Running D

module _ {D : Type 0} (hal : FlashHal D) (bl_version : List ℕ) (rounds : ℕ) where
  -- What follows `process_line` in the loop.
  abbrev pub after_line : Reply D → Running D
  after_line (answered c) = if c.reset_pending then was_reset c else reading [] c
  after_line (started sp pc c) = left sp pc c
  after_line (receiving c) = in_transfer c

  -- One byte of the loop.
  unfoldable pub read_byte : ℕ → List ℕ → Cli D → Running D
  read_byte b buf c =
      let done = after_line (process_line hal bl_version rounds buf c) in
      if (b == 0x0D) || (b == 0x0A)
      then (if length buf == 0 then reading buf c else done)
      else if ltb (length buf) cli_line_max
      then reading (buf ++ b ∷ []) c
      else reading buf c

  -- A round of `for (;;)`: a timeout leaves all as it is.
  abbrev pub read_answer : Rx ℕ → List ℕ → Cli D → Running D
  read_answer (none, l) buf c = reading buf (record c { line = l })
  read_answer (some b, l) buf c = read_byte b buf (record c { line = l })

  -- At most so many rounds.
  unfoldable pub run_rounds : ℕ → Running D → Running D
  run_rounds zero r = r
  run_rounds (suc n) (reading buf c) = run_rounds n (read_answer (rx c.line) buf c)
  run_rounds (suc n) (was_reset c) = was_reset c
  run_rounds (suc n) (left sp pc c) = left sp pc c
  run_rounds (suc n) (in_transfer c) = in_transfer c

  -- The greeting, then the loop.
  unfoldable pub bl_cli_run : ℕ → Cli D → Running D
  bl_cli_run n c = run_rounds n (
      reading [] (
        say (λ r. resp_end (resp_kv (codes "bootloader") (codes "ready") (resp_begin r)))
          (record c { reset_pending = false })))
