-- ===== src/Protocol/Updates.antt =====
-- firmware/app/src/Protocol.c: the commands of the update over the network. Each takes the words after
-- its name.
use drdro_mainboard.Base.{
  ℕ, ◌+◌, not, ◌||◌, ◌==◌, if◌then◌else◌, le16, List, [], ◌∷◌, length, Option, some, none,
}
use drdro_mainboard.FwUpdate.Session.{
  FwState, fw_idle, fw_recv, fw_done, fw_error, FwReason, no_reason, size_reason, flash_reason,
  crc_reason, timeout_reason, abort_reason, BeginResult, begun, bad_args, busy, network_down,
  CommitResult, committed, not_ready, not_saved, fw_update_begin, fw_update_commit, fw_update_abort,
}
use drdro_mainboard.BlCli.Text.{codes, parse_bank, Response, resp_kv, resp_kv_u, resp_kv_hex}
use drdro_mainboard.Protocol.Registry.{off_net}
use drdro_mainboard.Protocol.Values.{at_end}
use drdro_mainboard.Protocol.App.{Outside, App, say, refuse}

abbrev pub state_name : FwState → List ℕ
state_name fw_idle = codes "idle"
state_name fw_recv = codes "recv"
state_name fw_done = codes "done"
state_name fw_error = codes "error"

abbrev pub reason_text : FwReason → List ℕ
reason_text no_reason = []
reason_text size_reason = codes "size"
reason_text flash_reason = codes "flash"
reason_text crc_reason = codes "crc"
reason_text timeout_reason = codes "timeout"
reason_text abort_reason = codes "abort"

abbrev pub begin_usage : List ℕ
begin_usage = codes "usage: fw.begin <bank> <size> <crc32hex8>"

module _ {D B : Type 0} (o : Outside D B) where
  -- `FwUpdateBegin` with what is said of its result, and the port of the update.
  abbrev pub update_port : App D B → ℕ
  update_port c =
      let port = le16 c.registry (off_net + 22) in (if port == 0 then 5555 else port) + 1

  abbrev pub begin_answer : BeginResult → App D B → App D B
  begin_answer begun c =
      say
        (λ r.
          resp_kv_u (codes "fw.port") (update_port c) (resp_kv (codes "fw.state") (codes "recv") r))
        c
  begin_answer bad_args c = refuse (codes "bad args") c
  begin_answer busy c = refuse (codes "busy") c
  begin_answer network_down c = refuse (codes "network down") c

  unfoldable pub begin_update : ℕ → ℕ → ℕ → App D B → App D B
  begin_update bank size crc c =
      let (rc, s) = fw_update_begin o.hal o.leased o.listening bank size crc c.session in
      begin_answer rc (record c { session = s })

  abbrev pub begin_bank : Option ℕ → List ℕ → List ℕ → App D B → App D B
  begin_bank none size_word crc_word c = refuse begin_usage c
  begin_bank (some bank) size_word crc_word c =
      let (size, size_rest) = o.c_lib.strtoul 10 size_word in
      let (crc, crc_rest) = o.c_lib.strtoul 16 crc_word in
      if not (at_end size_rest) || size == 0
      then refuse begin_usage c
      else if not (at_end crc_rest) || not (length crc_word == 8)
      then refuse begin_usage c
      else begin_update bank size crc c

  unfoldable pub cmd_fw_begin : List (List ℕ) → App D B → App D B
  cmd_fw_begin [] c = refuse begin_usage c
  cmd_fw_begin (b ∷ []) c = refuse begin_usage c
  cmd_fw_begin (b ∷ size ∷ []) c = refuse begin_usage c
  cmd_fw_begin (b ∷ size ∷ crc ∷ args) c = begin_bank (parse_bank b) size crc c

  abbrev pub reason_line : FwState → List ℕ → Response → Response
  reason_line fw_idle reason r = r
  reason_line fw_recv reason r = r
  reason_line fw_done reason r = r
  reason_line fw_error reason r = resp_kv (codes "fw.reason") reason r

  unfoldable pub cmd_fw_status : List (List ℕ) → App D B → App D B
  cmd_fw_status args c =
      let s = c.session in
      say
        (λ r. reason_line s.state (reason_text s.reason) (
          resp_kv_u (codes "fw.recv") s.received
            (resp_kv (codes "fw.state") (state_name s.state) r)))
        c

  abbrev pub commit_answer : ℕ → CommitResult → App D B → App D B
  commit_answer bank (committed crc) c =
      say
        (λ r.
          resp_kv_hex (codes "fw.crc") crc
            (resp_kv_u (codes "fw.bank") bank (resp_kv (codes "fw.commit") (codes "ok") r)))
        c
  commit_answer bank not_ready c = refuse (codes "not ready") c
  commit_answer bank not_saved c = refuse (codes "flash write") c

  unfoldable pub cmd_fw_commit : List (List ℕ) → App D B → App D B
  cmd_fw_commit args c =
      let (rc, s) = fw_update_commit o.hal c.session in
      commit_answer c.session.bank rc (record c { session = s })

  unfoldable pub cmd_fw_abort : List (List ℕ) → App D B → App D B
  cmd_fw_abort args c =
      say (resp_kv (codes "fw.state") (codes "idle"))
        (record c { session = fw_update_abort o.hal c.session })
