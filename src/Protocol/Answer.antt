-- ===== src/Protocol/Answer.antt =====
-- `ProtocolProcessLine`: whatever the line, its answer is framed, it writes no variable that is
-- read-only, and a motion pin is left alone while a servo mode is on.
use drdro_mainboard.Base.{
  ℕ, ◌≡◌, refl, ap₂, ◌∙◌, true, false, if_intro, ◌==◌, List, [], ◌∷◌, ◌++◌, append_assoc, All, take,
  Option, some, none,
}
use drdro_mainboard.BlCli.Text.{
  codes, str_eq, parse_hex2, to_hex2, cksum, cksum_from, Response, resp_begin, resp_kv, resp_end,
}
use drdro_mainboard.BlCli.Framing.{Said, nothing, kv}
use drdro_mainboard.BlCli.Process.{c_string, split_star, words}
use drdro_mainboard.Protocol.{protocol_line_max}
use drdro_mainboard.Protocol.Registry.{k_vars}
use drdro_mainboard.Protocol.App.{Outside, App, say, refuse, servo_mode_of}
use drdro_mainboard.Protocol.Process.{
  Command, k_commands, k_commands_rest, help_lines, cmd_help, all_commands, run_command, run_argv,
  bad_checksum, run_body, run_new, with_sum, with_star, run_last, run_text, begin_response,
  protocol_process_line,
}
use drdro_mainboard.Protocol.Writable.{KeepsReadOnly, read_only_kept, KeepsOthers}
use drdro_mainboard.Protocol.Behaviour.{
  is_motion_pin, Behaves, answers, refused, cmd_get-Behaves, cmd_settings-Behaves, cmd_sta-Behaves,
}
use drdro_mainboard.Protocol.Setting.{cmd_set-Behaves}
use drdro_mainboard.Protocol.BoardBehaviour.{
  cmd_version-Behaves, cmd_update-Behaves, cmd_reset-Behaves, cmd_save-Behaves, cmd_load-Behaves,
  cmd_bank-Behaves, cmd_rollback-Behaves, cmd_dout-Behaves,
}
use drdro_mainboard.Protocol.UpdateBehaviour.{
  cmd_fw_begin-Behaves, cmd_fw_status-Behaves, cmd_fw_commit-Behaves, cmd_fw_abort-Behaves,
}

module _ {D B : Type 0} (o : Outside D B) where
  help_lines-Said :
      (es : List (Command D B)) (r r' : Response) → Said r r' → Said r (help_lines o es r')
  unfolding help_lines
  help_lines-Said [] r r' h = h
  help_lines-Said (e ∷ es) r r' h = help_lines-Said es r (resp_kv e.name e.help r') (kv _ _ h)

  cmd_help-Behaves : (args : List (List ℕ)) (c : App D B) → Behaves c (cmd_help o args c)
  unfolding cmd_help
  cmd_help-Behaves args c =
      answers c (cmd_help o args c)
        (help_lines-Said (k_commands_rest o) c.resp _
          (kv _ _ (help_lines-Said (k_commands o) c.resp c.resp nothing)))
        refl refl refl

  abbrev CommandBehaves : Command D B → Type 0
  CommandBehaves e = (args : List (List ℕ)) (c : App D B) → Behaves c (e.fn args c)

  all_commands-Behave : All CommandBehaves (all_commands o)
  all_commands-Behave = (
    cmd_sta-Behaves o,
    (
      cmd_set-Behaves o,
      (
        cmd_get-Behaves o,
        (
          cmd_settings-Behaves o,
          (
            cmd_save-Behaves o,
            (
              cmd_load-Behaves o,
              (
                cmd_bank-Behaves o,
                (
                  cmd_rollback-Behaves o,
                  (
                    cmd_dout-Behaves o,
                    (
                      cmd_fw_begin-Behaves o,
                      (
                        cmd_fw_status-Behaves o,
                        (
                          cmd_fw_commit-Behaves o,
                          (
                            cmd_fw_abort-Behaves o,
                            (
                              cmd_version-Behaves o,
                              (cmd_help-Behaves, (cmd_update-Behaves o, (cmd_reset-Behaves o, tt))),
                            ),
                          ),
                        ),
                      ),
                    ),
                  ),
                ),
              ),
            ),
          ),
        ),
      ),
    ),
  )

  run_command-Behaves :
      (es : List (Command D B)) (name : List ℕ) (args : List (List ℕ)) (c : App D B)
      → All CommandBehaves es
      → Behaves c (run_command o es name args c)
  unfolding run_command
  run_command-Behaves [] name args c h = refused _ c
  run_command-Behaves (e ∷ es) name args c h =
      if_intro (Behaves c) (str_eq name e.name) (e.fn args c) (run_command o es name args c)
        (λ q. h.0 args c) (λ q. run_command-Behaves es name args c h.1)

  pub run_argv-Behaves : (ws : List (List ℕ)) (c : App D B) → Behaves c (run_argv o ws c)
  unfolding run_argv
  run_argv-Behaves [] c = refused _ c
  run_argv-Behaves (w ∷ args) c = run_command-Behaves (all_commands o) w args c all_commands-Behave

  -- A line has been answered: a body, then its checksum in hexadecimal and an empty line; and no byte
  -- of the registry has changed but of variables that may be set, and no motion pin while a servo mode
  -- is on.
  pub record Answered (c c' : App D B) : Type 0 where
    pub body : List ℕ
    pub framed :
        c'.resp.out
        ≡ c.resp.out ++ (body ++ (codes "crc=" ++ (to_hex2 (cksum body) ++ codes "\n\n")))
    pub others_kept : KeepsOthers c.registry c'.registry
    pub motion_kept :
        (servo_mode_of c == 0) ≡ false → (k : ℕ) → is_motion_pin k ≡ true → c'.pins k ≡ c.pins k

  framed_by :
      (r r' : Response) (h : Said (resp_begin r) r')
      → (resp_end r').out
        ≡ r.out ++ (h.body ++ (codes "crc=" ++ (to_hex2 (cksum h.body) ++ codes "\n\n")))
  unfolding resp_begin resp_end cksum
  framed_by r r' h =
      ap₂ (λ (q : List ℕ) (k : ℕ). ((q ++ codes "crc=") ++ to_hex2 k) ++ codes "\n\n") h.sent
        h.counted
      ∙ append_assoc ((r.out ++ h.body) ++ codes "crc=") (to_hex2 (cksum_from 0 h.body))
          (codes "\n\n")
      ∙ append_assoc (r.out ++ h.body) (codes "crc=")
          (to_hex2 (cksum_from 0 h.body) ++ codes "\n\n")
      ∙ append_assoc r.out h.body (codes "crc=" ++ (to_hex2 (cksum_from 0 h.body) ++ codes "\n\n"))

  -- The end of a response, whatever has been kept for the repeat.
  finished :
      (b : List ℕ) (c c' : App D B)
      → Behaves (record (begin_response o c) { last = b }) c'
      → Answered c (say resp_end c')
  unfolding resp_begin
  finished b c c' h = record {
    body = h.said.body;
    framed = framed_by c.resp c'.resp h.said;
    others_kept = h.others_kept;
    motion_kept = h.motion_kept;
  }

  recounted : (n : ℕ) (c d : App D B) → Answered c d → Answered c (record d { rx_lines = n })
  recounted n c d h = record {
    body = h.body;
    framed = h.framed;
    others_kept = h.others_kept;
    motion_kept = h.motion_kept;
  }

  run_body-Answered :
      (body b : List ℕ) (c : App D B)
      → Answered c (run_body o body (record (begin_response o c) { last = b }))
  run_body-Answered body b c =
      let c1 : App D B = record (begin_response o c) { last = b } in
      let c2 = run_argv o (take 8 (words body)) c1 in
      recounted _ c (say resp_end c2) (finished b c c2 (run_argv-Behaves (take 8 (words body)) c1))

  bad_checksum-Answered : (c : App D B) → Answered c (bad_checksum o (begin_response o c))
  bad_checksum-Answered c =
      finished c.last c (refuse (codes "bad checksum") (begin_response o c))
        (refused (codes "bad checksum") (begin_response o c))

  run_new-Answered :
      (body : List ℕ) (c : App D B) → Answered c (run_new o body (begin_response o c))
  unfolding run_new
  run_new-Answered body c = run_body-Answered body body c

  with_sum-Answered :
      (before : List ℕ) (w : Option ℕ) (c : App D B)
      → Answered c (with_sum o before w (begin_response o c))
  with_sum-Answered before none c = bad_checksum-Answered c
  with_sum-Answered before (some want) c =
      if_intro (Answered c) (cksum before == want) (run_new o before (begin_response o c))
        (bad_checksum o (begin_response o c)) (λ e. run_new-Answered before c)
        (λ e. bad_checksum-Answered c)

  with_star-Answered :
      (work : List ℕ) (w : Option (List ℕ × List ℕ)) (c : App D B)
      → Answered c (with_star o work w (begin_response o c))
  with_star-Answered work none c = run_new-Answered work c
  with_star-Answered work (some (before, after)) c = with_sum-Answered before (parse_hex2 after) c

  run_last-Answered :
      (kept : List ℕ) (c : App D B) → Answered c (run_last o kept (begin_response o c))
  unfolding run_last
  run_last-Answered [] c =
      finished c.last c (refuse (codes "no previous command") (begin_response o c))
        (refused (codes "no previous command") (begin_response o c))
  run_last-Answered (b ∷ s) c = run_body-Answered (b ∷ s) c.last c

  run_text-Answered :
      (line : List ℕ) (c : App D B) → Answered c (run_text o line (begin_response o c))
  run_text-Answered [] c = run_last-Answered c.last c
  run_text-Answered (b ∷ s) c =
      let work = take protocol_line_max (b ∷ s) in with_star-Answered work (split_star work) c

  pub line-Answered : (line : List ℕ) (c : App D B) → Answered c (protocol_process_line o line c)
  unfolding protocol_process_line
  line-Answered line c = run_text-Answered (c_string line) c

  -- Every line is answered in a frame: whatever the line and the state, what has been sent when
  -- `ProtocolProcessLine` returns is a body followed by `crc=`, the exclusive or of the body in two
  -- hexadecimal digits, and an empty line.
  pub protocol_process_line-framed :
      (line : List ℕ) (c : App D B)
      → (body : List ℕ) × ((protocol_process_line o line c).resp.out
          ≡ c.resp.out ++ (body ++ (codes "crc=" ++ (to_hex2 (cksum body) ++ codes "\n\n"))))
  protocol_process_line-framed line c = let h = line-Answered line c in (h.body, h.framed)

  -- No line changes a read-only variable: whatever the line and the state, a byte of the registry
  -- changes only if it is a byte of a variable of the table that is not marked read-only, and every
  -- byte of every element of a variable that is marked read-only is as it was.
  pub protocol_process_line-read_only :
      (line : List ℕ) (c : App D B)
      → let m' = (protocol_process_line o line c).registry in
        KeepsOthers c.registry m' × All (KeepsReadOnly c.registry m') k_vars
  protocol_process_line-read_only line c =
      let h = (line-Answered line c).others_kept in
      (h, read_only_kept c.registry (protocol_process_line o line c).registry h)

  -- A line that arrives while a servo mode is on, whatever it says, leaves the pins ENA, M1_STEP and
  -- M1_DIR as they are.
  pub protocol_process_line-motion_pins :
      (line : List ℕ) (c : App D B) (k : ℕ)
      → (servo_mode_of c == 0) ≡ false
      → is_motion_pin k ≡ true
      → (protocol_process_line o line c).pins k ≡ c.pins k
  protocol_process_line-motion_pins line c k moving motion =
      (line-Answered line c).motion_kept moving k motion
