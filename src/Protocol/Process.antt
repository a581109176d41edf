-- ===== src/Protocol/Process.antt =====
-- firmware/app/src/Protocol.c: a line from its checksum to its answer, and the service of the serial
-- line.
use drdro_mainboard.Base.{
  ℕ, ◌+◌, ◌==◌, if◌then◌else◌, u32, List, [], ◌∷◌, ◌++◌, take, Option, some, none,
}
use drdro_mainboard.BlCli.Text.{
  codes, str_eq, parse_hex2, cksum, Response, resp_begin, resp_kv, resp_end,
}
use drdro_mainboard.BlCli.Process.{c_string, split_star, words, em_dash}
use drdro_mainboard.Protocol.{SerialFeed, protocol_feed_byte, protocol_line_max}
use drdro_mainboard.Protocol.App.{Action, act_none, act_handoff, Outside, App, say, refuse}
use drdro_mainboard.Protocol.Variables.{cmd_get, cmd_set, cmd_settings, cmd_sta}
use drdro_mainboard.Protocol.Commands.{
  cmd_version, cmd_update, cmd_reset, cmd_save, cmd_load, cmd_bank, cmd_rollback, cmd_dout,
}
use drdro_mainboard.Protocol.Updates.{cmd_fw_begin, cmd_fw_status, cmd_fw_commit, cmd_fw_abort}

-- The entries of `kCommands`.
pub record Command (D B : Type 0) : Type 0 where
  pub name : List ℕ
  pub fn : List (List ℕ) → App D B → App D B
  pub help : List ℕ

module _ {D B : Type 0} (o : Outside D B) where
  abbrev pub k_commands : List (Command D B)
  k_commands =
      record {
        name = codes "sta";
        fn = cmd_sta o;
        help = codes "fast read: scale pos/speed + servo pos/speed/tgt/mode";
      }
      ∷ record { name = codes "set"; fn = cmd_set o; help = codes "set <name> [idx] <value>" }
      ∷ record { name = codes "get"; fn = cmd_get o; help = codes "get <name>" }
      ∷ record { name = codes "settings"; fn = cmd_settings o; help = codes "dump all variables" }
      ∷ record { name = codes "save"; fn = cmd_save o; help = codes "persist settings to flash" }
      ∷ record { name = codes "load"; fn = cmd_load o; help = codes "reload settings from flash" }
      ∷ record {
        name = codes "bank";
        fn = cmd_bank o;
        help =
            codes "bank [<0|1>] "
            ++ em_dash
            ++ codes " active bank: report, or select for next boot";
      }
      ∷ record {
        name = codes "rollback";
        fn = cmd_rollback o;
        help = codes "switch to the other bank and reboot into it";
      }
      ∷ record {
        name = codes "dout";
        fn = cmd_dout o;
        help =
            codes "dout <ena|mN.step|mN.dir> <0|1> " ++ em_dash ++ codes " raw output (bring-up)";
      }
      ∷ record {
        name = codes "fw.begin";
        fn = cmd_fw_begin o;
        help =
            codes "fw.begin <bank> <size> <crc32hex8> " ++ em_dash ++ codes " arm network update";
      }
      ∷ record {
        name = codes "fw.status";
        fn = cmd_fw_status o;
        help = codes "network update state";
      }
      ∷ record {
        name = codes "fw.commit";
        fn = cmd_fw_commit o;
        help = codes "record + activate the received bank (then `reset`)";
      }
      ∷ record {
        name = codes "fw.abort";
        fn = cmd_fw_abort o;
        help = codes "abort a network update";
      }
      ∷ record { name = codes "version"; fn = cmd_version o; help = codes "firmware version" }
      ∷ []

  -- The entries of the table after `help`, whose function reads the table.
  abbrev pub k_commands_rest : List (Command D B)
  k_commands_rest =
      record {
        name = codes "update";
        fn = cmd_update o;
        help = codes "reboot into the firmware-update bootloader";
      }
      ∷ record { name = codes "reset"; fn = cmd_reset o; help = codes "system reset" }
      ∷ []

  unfoldable pub help_lines : List (Command D B) → Response → Response
  help_lines [] r = r
  help_lines (e ∷ es) r = help_lines es (resp_kv e.name e.help r)

  unfoldable pub cmd_help : List (List ℕ) → App D B → App D B
  unfolding help_lines
  cmd_help args = say (λ r.
      help_lines k_commands_rest
        (resp_kv (codes "help") (codes "list commands") (help_lines k_commands r)))

  abbrev pub all_commands : List (Command D B)
  all_commands =
      k_commands
      ++ record { name = codes "help"; fn = cmd_help; help = codes "list commands" }
        ∷ k_commands_rest

  -- The loop over the table, and `unknown command` after it.
  unfoldable pub run_command : List (Command D B) → List ℕ → List (List ℕ) → App D B → App D B
  run_command [] name args c = refuse (codes "unknown command") c
  run_command (e ∷ es) name args c =
      let rest = run_command es name args c in if str_eq name e.name then e.fn args c else rest

  -- What follows the split into words, at most eight of which are kept.
  unfoldable pub run_argv : List (List ℕ) → App D B → App D B
  run_argv [] c = refuse (codes "empty command") c
  run_argv (w ∷ args) c = run_command all_commands w args c

  -- The end of `ProtocolProcessLine`: the response is ended and the line counted; a return before it
  -- only ends the response. The action is that of the command.
  abbrev pub counted : App D B → App D B
  counted c = record (say resp_end c) { rx_lines = u32 (c.rx_lines + 1) }

  abbrev pub bad_checksum : App D B → App D B
  bad_checksum c = say resp_end (refuse (codes "bad checksum") c)

  abbrev pub run_body : List ℕ → App D B → App D B
  run_body body c = counted (run_argv (take 8 (words body)) c)

  -- The body of a line, with its checksum stripped, is kept for the repeat.
  unfoldable pub run_new : List ℕ → App D B → App D B
  run_new body c = run_body body (record c { last = body })

  abbrev pub with_sum : List ℕ → Option ℕ → App D B → App D B
  with_sum before none c = bad_checksum c
  with_sum before (some want) c = if cksum before == want then run_new before c else bad_checksum c

  abbrev pub with_star : List ℕ → Option (List ℕ × List ℕ) → App D B → App D B
  with_star work none c = run_new work c
  with_star work (some (before, after)) c = with_sum before (parse_hex2 after) c

  unfoldable pub run_last : List ℕ → App D B → App D B
  run_last [] c = say resp_end (refuse (codes "no previous command") c)
  run_last (b ∷ s) c = run_body (b ∷ s) c

  abbrev pub run_text : List ℕ → App D B → App D B
  run_text [] c = run_last c.last c
  run_text (b ∷ s) c =
      let work = take protocol_line_max (b ∷ s) in with_star work (split_star work) c

  -- `respBegin` and what `sAction` is set to.
  abbrev pub begin_response : App D B → App D B
  begin_response c = record (say resp_begin c) { action = act_none }

  unfoldable pub protocol_process_line : List ℕ → App D B → App D B
  unfolding run_last
  protocol_process_line line c = run_text (c_string line) (begin_response c)

-- The application goes on, or hands over to the bootloader.
pub data Serving (D B : Type 0) : Type 0 where
  serving : SerialFeed → App D B → Serving D B
  handed_off : App D B → Serving D B

module _ {D B : Type 0} (o : Outside D B) where
  abbrev pub after_action : Action → SerialFeed → App D B → Serving D B
  after_action act_none f c = serving f c
  after_action act_handoff f c = handed_off c

  abbrev pub served : SerialFeed → App D B → Serving D B
  served f c = after_action c.action f c

  abbrev pub service_line : Option (List ℕ) → SerialFeed → App D B → Serving D B
  service_line none f c = serving f c
  service_line (some line) f c = served (record f { ready = none }) (protocol_process_line o line c)

  unfoldable pub protocol_service : SerialFeed → App D B → Serving D B
  protocol_service f c = service_line f.ready f c

  abbrev pub take_byte : ℕ → Serving D B → Serving D B
  take_byte b (serving f c) = protocol_service (protocol_feed_byte b f) c
  take_byte b (handed_off c) = handed_off c

  -- The loop of `protocolTask` over the bytes that the ring gives.
  unfoldable pub protocol_bytes : List ℕ → Serving D B → Serving D B
  protocol_bytes [] t = t
  protocol_bytes (b ∷ s) t = protocol_bytes s (take_byte b t)
