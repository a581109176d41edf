-- ===== src/BlCli/Commands.antt =====
-- firmware/bootloader/src/bl_cli.c: the commands. Each takes the words after its name.
use drdro_mainboard.Base.{
  ℕ, ◌+◌, ◌*◌, Bool, true, false, not, ◌==◌, if◌then◌else◌, Bytes, List, [], ◌∷◌, Option, some,
  none,
}
use drdro_mainboard.Layout.{
  app_exec_base, app_region_size, bank_base, bank_sector, boot_mode_app, boot_mode_bootloader,
}
use drdro_mainboard.Hal.{FlashHal}
use drdro_mainboard.Crc.{settings_crc32, byte_range}
use drdro_mainboard.Settings.{
  settings_load, active_bank, loaded_bank, boot_mode, put8, put16, put32,
}
use drdro_mainboard.Flash.{Session, flash_erase_sector, flash_write_settings}
use drdro_mainboard.Boot.{
  Machine, Outcome, jumped, returned, memory, bl_image_valid, bl_bank_trusted, selected_bank,
  bl_load_bank, bl_boot_app,
}
use drdro_mainboard.Ymodem.{
  Line, YmCode, ym_ok, ym_timeout, ym_cancelled, ym_flash_err, Progress, going, ended, out_size,
  ymodem_receive,
}
use drdro_mainboard.BlCli.Text.{
  codes, str_eq, parse_bank, Response, tx_raw, resp_kv, resp_err, resp_kv_u, resp_kv_hex,
}

-- The board, the response that is being sent, the flag of `reset`, and the serial line that a transfer
-- reads.
pub record Cli (D : Type 0) : Type 0 where
  pub machine : Machine D
  pub resp : Response
  pub reset_pending : Bool
  pub line : Line

-- A command answers; or it starts an application and does not come back; or its transfer is still
-- going after the rounds that it was given.
pub data Reply (D : Type 0) : Type 0 where
  answered : Cli D → Reply D
  started : ℕ → ℕ → Cli D → Reply D
  receiving : Cli D → Reply D

abbrev pub bool_u : Bool → ℕ
bool_u true = 1
bool_u false = 0

-- `(uint32_t)(-rc)`.
abbrev pub ym_code : YmCode → ℕ
ym_code ym_ok = 0
ym_code ym_timeout = 1
ym_code ym_cancelled = 2
ym_code ym_flash_err = 3

abbrev pub Args : Type 0
Args = List (List ℕ)

-- `argc < 2 || parse_bank(argv[1], &n)`.
unfoldable pub bank_arg : Args → Option ℕ
unfolding parse_bank
bank_arg [] = none
bank_arg (a ∷ more) = parse_bank a

unfoldable pub mode_arg : Args → Option ℕ
mode_arg [] = none
mode_arg (a ∷ more) =
    if str_eq a (codes "app")
    then some boot_mode_app
    else if str_eq a (codes "bl")
    then some boot_mode_bootloader
    else none

module _ {D : Type 0} where
  abbrev pub say : (Response → Response) → Cli D → Cli D
  say f c = record c { resp = f c.resp }

  abbrev pub with_flash : Session D → Cli D → Cli D
  with_flash f c = record c { machine = record c.machine { flash = f } }

  unfoldable pub cmd_version : List ℕ → Args → Cli D → Cli D
  cmd_version bl_version args = say (resp_kv (codes "version") bl_version)

  unfoldable pub cmd_reset : Args → Cli D → Cli D
  cmd_reset args c = record (say (resp_kv (codes "reset") (codes "ok")) c) { reset_pending = true }

module _ {D : Type 0} (hal : FlashHal D) where
  abbrev pub mem : Cli D → Bytes
  mem c = memory hal c.machine

  unfoldable pub cmd_info : Args → Cli D → Cli D
  cmd_info args c =
      let m = mem c in
      let (valid, s) = settings_load m in
      say
        (λ r. resp_kv_u (codes "exec.valid") (bool_u (bl_image_valid m app_exec_base)) (
          resp_kv_u (codes "bank1.valid") (bool_u (bl_image_valid m (bank_base 1))) (
            resp_kv_u (codes "bank0.valid") (bool_u (bl_image_valid m (bank_base 0))) (
              resp_kv_u (codes "bank.loaded") (loaded_bank s) (
                resp_kv_u (codes "bank.active") (active_bank s)
                  (resp_kv_u (codes "boot.mode") (boot_mode s) r))))))
        c

  -- `if (flash_write_settings(&s)) { resp_err(...); return; } resp_kv_u(...)`.
  unfoldable pub save_and_say : Bytes → List ℕ → ℕ → Cli D → Cli D
  save_and_say s key v c =
      let (s', (rc, f)) = flash_write_settings hal s c.machine.flash in
      say (if rc then resp_kv_u key v else resp_err (codes "settings write")) (with_flash f c)

  -- `if (parse_bank(...)) { resp_err(...); return; }` and the rest, here and below by clauses.
  abbrev pub select_bank : Option ℕ → Cli D → Cli D
  select_bank none c = say (resp_err (codes "usage: bank <0|1>")) c
  select_bank (some n) c =
      save_and_say (put8 (settings_load (mem c)).1 16 n) (codes "bank.active") n c

  unfoldable pub cmd_bank : Args → Cli D → Cli D
  cmd_bank [] c = cmd_info [] c
  cmd_bank (a ∷ more) c = select_bank (parse_bank a) c

  abbrev pub set_boot_mode : Option ℕ → Cli D → Cli D
  set_boot_mode none c = say (resp_err (codes "usage: boot.mode <app|bl>")) c
  set_boot_mode (some m) c =
      save_and_say (put16 (settings_load (mem c)).1 18 m) (codes "boot.mode") m c

  unfoldable pub cmd_boot_mode : Args → Cli D → Cli D
  cmd_boot_mode args = set_boot_mode (mode_arg args)

  abbrev pub erase_bank : Option ℕ → Cli D → Cli D
  erase_bank none c = say (resp_err (codes "usage: erase <0|1>")) c
  erase_bank (some n) c =
      let (rc, f) = flash_erase_sector hal (bank_sector n) c.machine.flash in
      say (if rc then resp_kv_u (codes "erase") n else resp_err (codes "erase")) (with_flash f c)

  unfoldable pub cmd_erase : Args → Cli D → Cli D
  cmd_erase args = erase_bank (bank_arg args)

  -- The checksum of a bank's region.
  abbrev pub region_crc : ℕ → Cli D → ℕ
  region_crc n c = settings_crc32 (byte_range (mem c) (bank_base n) app_region_size)

  abbrev pub crc_bank : Option ℕ → Cli D → Cli D
  crc_bank none c = say (resp_err (codes "usage: crc <0|1>")) c
  crc_bank (some n) c = say (resp_kv_hex (codes "crc") (region_crc n c)) c

  unfoldable pub cmd_crc : Args → Cli D → Cli D
  cmd_crc args = crc_bank (bank_arg args)

  -- A transfer that did not end as YM_OK.
  unfoldable pub flash_failed : YmCode → Cli D → Cli D
  flash_failed code c =
      let f = c.machine.flash in
      say
        (λ r. resp_kv_hex (codes "ym.hal") f.fail_hal (
          resp_kv_hex (codes "ym.addr") f.fail_addr (
            resp_kv_u (codes "ym.phase") f.fail_phase
              (resp_kv_u (codes "ym.rc") (ym_code code) (resp_err (codes "ymodem") r)))))
        c

  -- A transfer that did: the checksum of the bank is recorded, whatever the save returns.
  unfoldable pub flash_received : ℕ → ℕ → Cli D → Cli D
  flash_received n size c =
      let crc = region_crc n c in
      let (s, (rc, f)) =
        flash_write_settings hal (put32 (settings_load (mem c)).1 (20 + 4 * n) crc)
          c.machine.flash in
      if not (bl_image_valid (mem c) (bank_base n))
      then say (resp_err (codes "bad image")) c
      else say
          (λ r.
            resp_kv_hex (codes "crc") crc
              (resp_kv_u (codes "size") size (resp_kv_u (codes "flash") n r)))
          (with_flash f c)

  -- The receiver has sent its bytes on the line of the answer, outside of the checksum.
  unfoldable pub flash_result : ℕ → ℕ → Progress D → Cli D → Reply D
  flash_result n size (going p t) c =
      receiving (say (tx_raw t.sent) (record (with_flash t.flash c) { line = t.line }))
  flash_result n size (ended code t) c =
      let c1 = say (tx_raw t.sent) (record (with_flash t.flash c) { line = t.line }) in
      elim code [
        | ym_ok ↦ answered (flash_received n (out_size size t) c1)
        | ym_timeout ↦ answered (flash_failed ym_timeout c1)
        | ym_cancelled ↦ answered (flash_failed ym_cancelled c1)
        | ym_flash_err ↦ answered (flash_failed ym_flash_err c1)
      ]

  abbrev pub flash_bank : ℕ → Option ℕ → Cli D → Reply D
  flash_bank rounds none c = answered (say (resp_err (codes "usage: flash <0|1>")) c)
  flash_bank rounds (some n) c =
      let (size, r) =
        ymodem_receive hal rounds (bank_base n) (bank_sector n) c.line
          (record c.machine.flash { fail_phase = 0 }) in
      flash_result n size r c

  -- `rounds` bounds the rounds of the receiver.
  unfoldable pub cmd_flash : ℕ → Args → Cli D → Reply D
  cmd_flash rounds args = flash_bank rounds (bank_arg args)

  unfoldable pub cmd_copy : Args → Cli D → Cli D
  cmd_copy args c =
      let (valid, s) = settings_load (mem c) in
      let bank = selected_bank s in
      let (rc, m) = bl_load_bank hal bank c.machine in
      let (s', (rc', f)) = flash_write_settings hal (put8 s 17 bank) m.flash in
      if not (bl_bank_trusted (mem c) bank (some s))
      then say (resp_err (codes "bad image")) c
      else if not rc
      then say (resp_err (codes "copy")) (record c { machine = m })
      else say (resp_kv_u (codes "copy") bank) (with_flash f (record c { machine = m }))

  -- What follows a boot that comes back.
  abbrev pub or_say : List ℕ → Outcome D → Cli D → Reply D
  or_say reason (jumped sp pc m) c = started sp pc (record c { machine = m })
  or_say reason (returned m) c = answered (say (resp_err reason) (record c { machine = m }))

  unfoldable pub cmd_boot : Args → Cli D → Reply D
  cmd_boot args c = or_say (codes "no app") (bl_boot_app hal c.machine) c

  unfoldable pub cmd_rollback : Args → Cli D → Reply D
  cmd_rollback args c =
      let (valid, s) = settings_load (mem c) in
      let other = if active_bank s == 0 then 1 else 0 in
      let (s', (rc, f)) = flash_write_settings hal (put8 s 16 other) c.machine.flash in
      let c1 = with_flash f c in
      if not (bl_bank_trusted (mem c) other (some s))
      then answered (say (resp_err (codes "other bank invalid")) c)
      else if not rc
      then answered (say (resp_err (codes "settings write")) c1)
      else or_say (codes "boot failed") (bl_boot_app hal c1.machine) c1
