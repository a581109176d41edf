-- ===== src/Protocol/UpdateBehaviour.antt =====
-- The commands of the update over the network answer, and leave the registry and the pins alone.
use drdro_mainboard.Base.{
  ℕ, refl, not, ◌||◌, if_intro, ◌==◌, if◌then◌else◌, List, [], ◌∷◌, length, Option, some, none,
}
use drdro_mainboard.BlCli.Text.{parse_bank, Response}
use drdro_mainboard.BlCli.Framing.{Said, nothing, kv, err}
use drdro_mainboard.FwUpdate.Session.{
  FwState, fw_idle, fw_recv, fw_done, fw_error, BeginResult, begun, bad_args, busy, network_down,
  CommitResult, committed, not_ready, not_saved, FwSession, fw_update_begin, fw_update_commit,
}
use drdro_mainboard.Protocol.App.{Outside, App, refuse}
use drdro_mainboard.Protocol.Updates.{
  begin_answer, begin_update, begin_bank, begin_usage, reason_line, reason_text, commit_answer,
  cmd_fw_begin, cmd_fw_status, cmd_fw_commit, cmd_fw_abort,
}
use drdro_mainboard.Protocol.Values.{at_end}
use drdro_mainboard.Protocol.Behaviour.{Behaves, answers, refused}

module _ {D B : Type 0} (o : Outside D B) where
  begin_answer-Behaves :
      (rc : BeginResult) (s : FwSession D) (c : App D B)
      → Behaves c (begin_answer o rc (record c { session = s }))
  begin_answer-Behaves begun s c = answers c _ (kv _ _ (kv _ _ nothing)) refl refl refl
  begin_answer-Behaves bad_args s c = answers c _ (err _ nothing) refl refl refl
  begin_answer-Behaves busy s c = answers c _ (err _ nothing) refl refl refl
  begin_answer-Behaves network_down s c = answers c _ (err _ nothing) refl refl refl

  pub cmd_fw_begin-Behaves :
      (args : List (List ℕ)) (c : App D B) → Behaves c (cmd_fw_begin o args c)
  unfolding cmd_fw_begin begin_update
  cmd_fw_begin-Behaves [] c = refused _ c
  cmd_fw_begin-Behaves (b ∷ []) c = refused _ c
  cmd_fw_begin-Behaves (b ∷ size ∷ []) c = refused _ c
  cmd_fw_begin-Behaves (b ∷ size ∷ crc ∷ args) c = begin_in (parse_bank b)
    where
      begin_in : (n : Option ℕ) → Behaves c (begin_bank o n size crc c)
      begin_in none = refused _ c
      begin_in (some n) =
          let (v, v_rest) = o.c_lib.strtoul 10 size in
          let (w, w_rest) = o.c_lib.strtoul 16 crc in
          let r = fw_update_begin o.hal o.leased o.listening n v w c.session in
          if_intro (Behaves c) (not (at_end v_rest) || v == 0) (refuse begin_usage c)
            (if not (at_end w_rest) || not (length crc == 8)
              then refuse begin_usage c
              else begin_update o n v w c)
            (λ e. refused _ c)
            (λ e.
              if_intro (Behaves c) (not (at_end w_rest) || not (length crc == 8))
                (refuse begin_usage c) (begin_update o n v w c) (λ e'. refused _ c)
                (λ e'. begin_answer-Behaves r.0 r.1 c))

  reason_line-Said :
      (t : FwState) (reason : List ℕ) (r r' : Response)
      → Said r r'
      → Said r (reason_line o t reason r')
  reason_line-Said fw_idle reason r r' h = h
  reason_line-Said fw_recv reason r r' h = h
  reason_line-Said fw_done reason r r' h = h
  reason_line-Said fw_error reason r r' h = kv _ _ h

  pub cmd_fw_status-Behaves :
      (args : List (List ℕ)) (c : App D B) → Behaves c (cmd_fw_status o args c)
  unfolding cmd_fw_status
  cmd_fw_status-Behaves args c =
      answers c (cmd_fw_status o args c)
        (reason_line-Said c.session.state (reason_text c.session.reason) c.resp _
          (kv _ _ (kv _ _ nothing)))
        refl refl refl

  commit_answer-Behaves :
      (bank : ℕ) (rc : CommitResult) (s : FwSession D) (c : App D B)
      → Behaves c (commit_answer o bank rc (record c { session = s }))
  commit_answer-Behaves bank (committed crc) s c =
      answers c _ (kv _ _ (kv _ _ (kv _ _ nothing))) refl refl refl
  commit_answer-Behaves bank not_ready s c = answers c _ (err _ nothing) refl refl refl
  commit_answer-Behaves bank not_saved s c = answers c _ (err _ nothing) refl refl refl

  pub cmd_fw_commit-Behaves :
      (args : List (List ℕ)) (c : App D B) → Behaves c (cmd_fw_commit o args c)
  unfolding cmd_fw_commit
  cmd_fw_commit-Behaves args c =
      let r = fw_update_commit o.hal c.session in commit_answer-Behaves c.session.bank r.0 r.1 c

  pub cmd_fw_abort-Behaves :
      (args : List (List ℕ)) (c : App D B) → Behaves c (cmd_fw_abort o args c)
  unfolding cmd_fw_abort
  cmd_fw_abort-Behaves args c = answers c _ (kv _ _ nothing) refl refl refl
