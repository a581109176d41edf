-- ===== src/BlCli/Answer.antt =====
-- `process_line`: whatever the line, its answer is framed; and what the checksum of a line is for.
use drdro_mainboard.Base.{
  ℕ, ◌≡◌, ◌⊎◌, inl, inr, refl, ap, ap₂, ◌∙◌, if_intro, ◌==◌, List, [], ◌∷◌, ◌++◌, append_assoc,
  take, All, Option, some, none,
}
use drdro_mainboard.Hal.{FlashHal}
use drdro_mainboard.BlCli.Text.{
  codes, str_eq, to_hex2, cksum_from, cksum, parse_hex2, Response, tx_raw, resp_begin, resp_kv,
  resp_end,
}
use drdro_mainboard.BlCli.Commands.{
  Cli, Reply, answered, started, receiving, Args, say, cmd_version, cmd_reset,
}
use drdro_mainboard.BlCli.Process.{
  split_star, words, c_string, Entry, k_commands, help_lines, cmd_help, run_command, ended_with,
  run_words, run_line, bad_checksum, with_sum, with_star, checked_line, process_line,
}
use drdro_mainboard.BlCli.Framing.{
  Said, Speaks, sent_into, nothing, kv, err, cmd_info-Said, cmd_bank-Said, cmd_boot_mode-Said,
  cmd_erase-Said, cmd_crc-Said, cmd_copy-Said, cmd_flash-Speaks, cmd_rollback-Speaks, or_say-Speaks,
}
use drdro_mainboard.Boot.{bl_boot_app}
use drdro_mainboard.BlCli.Commands.{cmd_boot}

module _ {D : Type 0} (hal : FlashHal D) (bl_version : List ℕ) (rounds : ℕ) where
  cmd_boot-Speaks : (args : Args) (c : Cli D) → Speaks hal rounds c (cmd_boot hal args c)
  unfolding cmd_boot
  cmd_boot-Speaks args c =
      or_say-Speaks hal rounds (codes "no app") (bl_boot_app hal c.machine) c c refl

  cmd_version-Said : (args : Args) (c : Cli D) → Said c.resp (cmd_version bl_version args c).resp
  unfolding cmd_version
  cmd_version-Said args c = kv _ _ nothing

  cmd_reset-Said : (args : Args) (c : Cli D) → Said c.resp (cmd_reset args c).resp
  unfolding cmd_reset
  cmd_reset-Said args c = kv _ _ nothing

  help_lines-Said :
      (es : List (Entry D)) (r r' : Response)
      → Said r r'
      → Said r (help_lines hal bl_version rounds es r')
  unfolding help_lines
  help_lines-Said [] r r' h = h
  help_lines-Said (e ∷ es) r r' h = help_lines-Said es r (resp_kv e.name e.help r') (kv _ _ h)

  abbrev EntrySpeaks : Entry D → Type 0
  EntrySpeaks e = (args : Args) (c : Cli D) → Speaks hal rounds c (e.fn args c)

  k_commands-Speak : All EntrySpeaks (k_commands hal bl_version rounds)
  k_commands-Speak = (
    (λ args c. inl (cmd_version-Said args c)),
    (
      (λ args c. inl (cmd_info-Said hal args c)),
      (
        (λ args c. inl (cmd_bank-Said hal args c)),
        (
          (λ args c. inl (cmd_boot_mode-Said hal args c)),
          (
            cmd_flash-Speaks hal rounds,
            (
              (λ args c. inl (cmd_erase-Said hal args c)),
              (
                (λ args c. inl (cmd_crc-Said hal args c)),
                (
                  (λ args c. inl (cmd_copy-Said hal args c)),
                  (
                    cmd_rollback-Speaks hal rounds,
                    (cmd_boot-Speaks, ((λ args c. inl (cmd_reset-Said args c)), tt)),
                  ),
                ),
              ),
            ),
          ),
        ),
      ),
    ),
  )

  run_command-Speaks :
      (es : List (Entry D)) (name : List ℕ) (args : Args) (c : Cli D)
      → All EntrySpeaks es
      → Speaks hal rounds c (run_command hal bl_version rounds es name args c)
  unfolding run_command
  run_command-Speaks [] name args c h = inl (err _ nothing)
  run_command-Speaks (e ∷ es) name args c h =
      if_intro (Speaks hal rounds c) (str_eq name e.name) (e.fn args c)
        (run_command hal bl_version rounds es name args c) (λ q. h.0 args c)
        (λ q. run_command-Speaks es name args c h.1)

  run_words-Speaks :
      (ws : List (List ℕ)) (c : Cli D) → Speaks hal rounds c (run_words hal bl_version rounds ws c)
  unfolding run_words cmd_help
  run_words-Speaks [] c = inl (err _ nothing)
  run_words-Speaks (w ∷ args) c =
      if_intro (Speaks hal rounds c) (str_eq w (codes "help"))
        (answered (cmd_help hal bl_version rounds args c))
        (run_command hal bl_version rounds (k_commands hal bl_version rounds) w args c)
        (λ q. inl (help_lines-Said (k_commands hal bl_version rounds) c.resp c.resp nothing))
        (λ q. run_command-Speaks (k_commands hal bl_version rounds) w args c k_commands-Speak)

  with_sum-Speaks :
      (before : List ℕ) (o : Option ℕ) (c : Cli D)
      → Speaks hal rounds c (with_sum hal bl_version rounds before o c)
  with_sum-Speaks before none c = inl (err _ nothing)
  with_sum-Speaks before (some want) c =
      if_intro (Speaks hal rounds c) (cksum before == want)
        (run_line hal bl_version rounds before c) (bad_checksum hal bl_version rounds c)
        (λ e. run_words-Speaks (take 4 (words before)) c) (λ e. inl (err _ nothing))

  with_star-Speaks :
      (line : List ℕ) (o : Option (List ℕ × List ℕ)) (c : Cli D)
      → Speaks hal rounds c (with_star hal bl_version rounds line o c)
  with_star-Speaks line none c = run_words-Speaks (take 4 (words line)) c
  with_star-Speaks line (some (before, after)) c = with_sum-Speaks before (parse_hex2 after) c

  -- What has been sent, on top of what was: a body, then its checksum in hexadecimal and an empty
  -- line.
  abbrev pub Frame : List ℕ → List ℕ → Type 0
  Frame before after =
      (body : List ℕ) × (after
        ≡ before ++ (body ++ (codes "crc=" ++ (to_hex2 (cksum body) ++ codes "\n\n"))))

  -- An answer is a frame, or the bytes of the receiver of a transfer and a frame; a transfer that is
  -- still going has sent the bytes of its receiver.
  abbrev pub Framed : Cli D → Reply D → Type 0
  Framed c (answered c') =
      Frame c.resp.out c'.resp.out
      ⊎ ((n : ℕ) × Frame (c.resp.out ++ sent_into hal rounds c n) c'.resp.out)
  Framed c (started sp pc c') = Unit
  Framed c (receiving c') = (n : ℕ) × (c'.resp.out ≡ c.resp.out ++ sent_into hal rounds c n)

  resp_end-Frame : (r r' : Response) → r.crc ≡ 0 → Said r r' → Frame r.out (resp_end r').out
  unfolding resp_end cksum
  resp_end-Frame r r' zero_crc h = (
    h.body,
    ap₂ (λ (o : List ℕ) (k : ℕ). ((o ++ codes "crc=") ++ to_hex2 k) ++ codes "\n\n") h.sent
          (h.counted ∙ ap (λ (k : ℕ). cksum_from k h.body) zero_crc)
        ∙ append_assoc ((r.out ++ h.body) ++ codes "crc=") (to_hex2 (cksum_from 0 h.body))
            (codes "\n\n")
        ∙ append_assoc (r.out ++ h.body) (codes "crc=")
            (to_hex2 (cksum_from 0 h.body) ++ codes "\n\n")
        ∙ append_assoc r.out h.body
            (codes "crc=" ++ (to_hex2 (cksum_from 0 h.body) ++ codes "\n\n")),
  )

  ended_with-Framed :
      (c : Cli D) (reply : Reply D)
      → Speaks hal rounds (say resp_begin c) reply
      → Framed c (ended_with hal bl_version rounds reply)
  unfolding resp_begin
  ended_with-Framed c (answered c') (inl h) =
      inl (resp_end-Frame (resp_begin c.resp) c'.resp refl h)
  ended_with-Framed c (answered c') (inr (n, h)) =
      inr (n, resp_end-Frame (tx_raw (sent_into hal rounds c n) (resp_begin c.resp)) c'.resp refl h)
  ended_with-Framed c (started sp pc c') h = tt
  ended_with-Framed c (receiving c') (n, h) = (n, ap (λ (q : Response). q.out) h)

  -- Every line is answered in a frame: whatever the line and the state of the board, where
  -- `process_line` comes back, what it has sent is a body followed by `crc=`, the exclusive or of the
  -- body in two hexadecimal digits, and an empty line. Only the bytes of the receiver of a transfer into
  -- some bank may come before the body, outside of the checksum; a transfer that is still going has sent
  -- those bytes and nothing else.
  pub process_line-Framed :
      (line : List ℕ) (c : Cli D) → Framed c (process_line hal bl_version rounds line c)
  unfolding process_line checked_line
  process_line-Framed line c =
      ended_with-Framed c (checked_line hal bl_version rounds (c_string line) (say resp_begin c))
        (with_star-Speaks (c_string line) (split_star (c_string line)) (say resp_begin c))
