-- ===== src/BlCli/Framing.antt =====
-- Every answer of the command line ends with the checksum of all that it said.
use drdro_mainboard.Base.{
  ℕ, ◌+◌, ◌*◌, bit_xor, Bytes, ◌≡◌, refl, ap, ◌∙◌, sym, Bool, true, false, not, if◌then◌else◌,
  if_intro, subst, ◌⊎◌, inl, inr, ◌==◌, List, [], ◌∷◌, ◌++◌, append_assoc, append-nil, Option, some,
  none,
}
use drdro_mainboard.Layout.{bank_base, bank_sector}
use drdro_mainboard.Settings.{settings_load, active_bank, put8, put16, put32}
use drdro_mainboard.Hal.{FlashHal}
use drdro_mainboard.Flash.{Session, flash_write_settings, flash_erase_sector}
use drdro_mainboard.Boot.{
  Machine, bl_image_valid, bl_bank_trusted, selected_bank, bl_load_bank, bl_boot_app, Outcome,
  jumped, returned,
}
use drdro_mainboard.Ymodem.{
  YmCode, ym_ok, ym_timeout, ym_cancelled, ym_flash_err, Progress, Transfer, going, ended, out_size,
  ymodem_receive,
}
use drdro_mainboard.BlCli.Text.{
  codes, cksum_from, parse_bank, Response, tx_raw, tx_str, resp_kv, resp_err, resp_kv_u,
  resp_kv_hex,
}
use drdro_mainboard.BlCli.Commands.{
  Cli, mem, region_crc, select_bank, set_boot_mode, erase_bank, crc_bank, flash_bank, Reply,
  answered, started, receiving, Args, say, with_flash, bank_arg, mode_arg, save_and_say,
  flash_failed, flash_received, flash_result, or_say, cmd_info, cmd_bank, cmd_boot_mode, cmd_erase,
  cmd_crc, cmd_flash, cmd_copy, cmd_rollback,
}

pub cksum_from-append :
    (c : ℕ) (s t : List ℕ) → cksum_from c (s ++ t) ≡ cksum_from (cksum_from c s) t
unfolding cksum_from
cksum_from-append c [] t = refl
cksum_from-append c (b ∷ s) t = cksum_from-append (bit_xor c b) s t

-- What a step of a response has said, counted in its checksum.
pub record Said (r r' : Response) : Type 0 where
  pub body : List ℕ
  pub sent : r'.out ≡ r.out ++ body
  pub counted : r'.crc ≡ cksum_from r.crc body

pub nothing : {r : Response} → Said r r
unfolding cksum_from
nothing {r = r} = record { body = []; sent = sym (append-nil r.out); counted = refl }

tx_str_step : (s : List ℕ) (r r' : Response) → Said r r' → Said r (tx_str s r')
unfolding tx_str
tx_str_step s r r' h = record {
  body = h.body ++ s;
  sent = ap (λ (q : List ℕ). q ++ s) h.sent ∙ append_assoc r.out h.body s;
  counted = ap (λ (x : ℕ). cksum_from x s) h.counted ∙ sym (cksum_from-append r.crc h.body s);
}

pub str : (s : List ℕ) {r r' : Response} → Said r r' → Said r (tx_str s r')
str s {r = r} {r' = r'} = tx_str_step s r r'

resp_kv_step : (k v : List ℕ) (r r' : Response) → Said r r' → Said r (resp_kv k v r')
unfolding resp_kv
resp_kv_step k v r r' h = str _ (str _ (str _ (str _ h)))

pub kv : (k v : List ℕ) {r r' : Response} → Said r r' → Said r (resp_kv k v r')
kv k v {r = r} {r' = r'} = resp_kv_step k v r r'

resp_err_step : (e : List ℕ) (r r' : Response) → Said r r' → Said r (resp_err e r')
unfolding resp_err
resp_err_step e r r' h = str _ (str _ (str _ h))

pub err : (e : List ℕ) {r r' : Response} → Said r r' → Said r (resp_err e r')
err e {r = r} {r' = r'} = resp_err_step e r r'

-- A choice between two things to say.
pub one_of :
    (b : Bool) (f g : Response → Response) (r : Response)
    → Said r (f r)
    → Said r (g r)
    → Said r ((if b then f else g) r)
one_of true f g r h k = h
one_of false f g r h k = k

-- What the receiver of a transfer has sent.
abbrev pub sent_by : {D : Type 0} → Progress D → List ℕ
sent_by (going p t) = t.sent
sent_by (ended code t) = t.sent

module _ {D : Type 0} (hal : FlashHal D) (rounds : ℕ) where
  -- The bytes that the receiver sends in a transfer into bank `n`.
  abbrev pub sent_into : Cli D → ℕ → List ℕ
  sent_into c n =
      sent_by
        (ymodem_receive hal rounds (bank_base n) (bank_sector n) c.line
          (record c.machine.flash { fail_phase = 0 })).1

  -- An answer has said something, behind the bytes of the receiver if there was a transfer; a transfer
  -- that is still going has sent those bytes.
  abbrev pub Speaks : Cli D → Reply D → Type 0
  Speaks c (answered c') =
      Said c.resp c'.resp ⊎ ((n : ℕ) × Said (tx_raw (sent_into c n) c.resp) c'.resp)
  Speaks c (started sp pc c') = Unit
  Speaks c (receiving c') = (n : ℕ) × (c'.resp ≡ tx_raw (sent_into c n) c.resp)

module _ {D : Type 0} (hal : FlashHal D) where
  pub or_say-Speaks :
      (rounds : ℕ) (reason : List ℕ) (o : Outcome D) (c c0 : Cli D)
      → c.resp ≡ c0.resp
      → Speaks hal rounds c0 (or_say hal reason o c)
  or_say-Speaks rounds reason (jumped sp pc m) c c0 e = tt
  or_say-Speaks rounds reason (returned m) c c0 e =
      inl (subst (λ (r : Response). Said r (resp_err reason c.resp)) e (err _ nothing))

  save_and_say-Said :
      (s : Bytes) (key : List ℕ) (v : ℕ) (c : Cli D) → Said c.resp (save_and_say hal s key v c).resp
  unfolding save_and_say
  save_and_say-Said s key v c =
      one_of (flash_write_settings hal s c.machine.flash).1.0 (resp_kv_u key v)
        (resp_err (codes "settings write")) c.resp (kv _ _ nothing) (err _ nothing)

  pub cmd_info-Said : (args : Args) (c : Cli D) → Said c.resp (cmd_info hal args c).resp
  unfolding cmd_info
  cmd_info-Said args c = kv _ _ (kv _ _ (kv _ _ (kv _ _ (kv _ _ (kv _ _ nothing)))))

  pub cmd_bank-Said : (args : Args) (c : Cli D) → Said c.resp (cmd_bank hal args c).resp
  unfolding cmd_bank
  cmd_bank-Said [] c = cmd_info-Said [] c
  cmd_bank-Said (a ∷ more) c = select (parse_bank a)
    where
      select : (o : Option ℕ) → Said c.resp (select_bank hal o c).resp
      select none = err _ nothing
      select (some n) =
          save_and_say-Said (put8 (settings_load (mem hal c)).1 16 n) (codes "bank.active") n c

  pub cmd_boot_mode-Said : (args : Args) (c : Cli D) → Said c.resp (cmd_boot_mode hal args c).resp
  unfolding cmd_boot_mode
  cmd_boot_mode-Said args c = set_mode (mode_arg args)
    where
      set_mode : (o : Option ℕ) → Said c.resp (set_boot_mode hal o c).resp
      set_mode none = err _ nothing
      set_mode (some m) =
          save_and_say-Said (put16 (settings_load (mem hal c)).1 18 m) (codes "boot.mode") m c

  pub cmd_erase-Said : (args : Args) (c : Cli D) → Said c.resp (cmd_erase hal args c).resp
  unfolding cmd_erase
  cmd_erase-Said args c = erase (bank_arg args)
    where
      erase : (o : Option ℕ) → Said c.resp (erase_bank hal o c).resp
      erase none = err _ nothing
      erase (some n) =
          one_of (flash_erase_sector hal (bank_sector n) c.machine.flash).0
            (resp_kv_u (codes "erase") n) (resp_err (codes "erase")) c.resp (kv _ _ nothing)
            (err _ nothing)

  pub cmd_crc-Said : (args : Args) (c : Cli D) → Said c.resp (cmd_crc hal args c).resp
  unfolding cmd_crc
  cmd_crc-Said args c = checksum (bank_arg args)
    where
      checksum : (o : Option ℕ) → Said c.resp (crc_bank hal o c).resp
      checksum none = err _ nothing
      checksum (some n) = kv _ _ nothing

  flash_failed-Said : (code : YmCode) (c : Cli D) → Said c.resp (flash_failed hal code c).resp
  unfolding flash_failed
  flash_failed-Said code c = kv _ _ (kv _ _ (kv _ _ (kv _ _ (err _ nothing))))

  flash_received-Said : (n size : ℕ) (c : Cli D) → Said c.resp (flash_received hal n size c).resp
  unfolding flash_received
  flash_received-Said n size c =
      if_intro (λ (q : Cli D). Said c.resp q.resp) (not (bl_image_valid (mem hal c) (bank_base n)))
        (say (resp_err (codes "bad image")) c) done (λ e. err _ nothing)
        (λ e. kv _ _ (kv _ _ (kv _ _ nothing)))
    where
      crc : ℕ
      crc = region_crc hal n c

      done : Cli D
      done =
          say
            (λ r.
              resp_kv_hex (codes "crc") crc
                (resp_kv_u (codes "size") size (resp_kv_u (codes "flash") n r)))
            (with_flash
              (flash_write_settings hal (put32 (settings_load (mem hal c)).1 (20 + 4 * n) crc)
                c.machine.flash).1.1
              c)

  -- The console after a transfer.
  abbrev resumed : Transfer D → Cli D → Cli D
  resumed t c = say (tx_raw t.sent) (record (with_flash t.flash c) { line = t.line })

  behind :
      (rounds n : ℕ) (t : Transfer D) (c : Cli D)
      → t.sent ≡ sent_into hal rounds c n
      → (q : Cli D) → Said (resumed t c).resp q.resp
      → Said (tx_raw (sent_into hal rounds c n) c.resp) q.resp
  behind rounds n t c e q h = subst (λ (s : List ℕ). Said (tx_raw s c.resp) q.resp) e h

  flash_result-Speaks :
      (rounds n size : ℕ) (r : Progress D) (c : Cli D)
      → sent_by r ≡ sent_into hal rounds c n
      → Speaks hal rounds c (flash_result hal n size r c)
  unfolding flash_result
  flash_result-Speaks rounds n size (going p t) c e = (n, ap (λ (s : List ℕ). tx_raw s c.resp) e)
  flash_result-Speaks rounds n size (ended ym_ok t) c e = inr (
    n,
    behind rounds n t c e (flash_received hal n (out_size size t) (resumed t c))
        (flash_received-Said n (out_size size t) (resumed t c)),
  )
  flash_result-Speaks rounds n size (ended ym_timeout t) c e = inr (
    n,
    behind rounds n t c e (flash_failed hal ym_timeout (resumed t c))
        (flash_failed-Said ym_timeout (resumed t c)),
  )
  flash_result-Speaks rounds n size (ended ym_cancelled t) c e = inr (
    n,
    behind rounds n t c e (flash_failed hal ym_cancelled (resumed t c))
        (flash_failed-Said ym_cancelled (resumed t c)),
  )
  flash_result-Speaks rounds n size (ended ym_flash_err t) c e = inr (
    n,
    behind rounds n t c e (flash_failed hal ym_flash_err (resumed t c))
        (flash_failed-Said ym_flash_err (resumed t c)),
  )

  pub cmd_flash-Speaks :
      (rounds : ℕ) (args : Args) (c : Cli D) → Speaks hal rounds c (cmd_flash hal rounds args c)
  unfolding cmd_flash
  cmd_flash-Speaks rounds args c = transfer (bank_arg args)
    where
      transfer : (o : Option ℕ) → Speaks hal rounds c (flash_bank hal rounds o c)
      transfer none = inl (err _ nothing)
      transfer (some n) =
          let r =
            ymodem_receive hal rounds (bank_base n) (bank_sector n) c.line
              (record c.machine.flash { fail_phase = 0 }) in
          flash_result-Speaks rounds n r.0 r.1 c refl

  pub cmd_copy-Said : (args : Args) (c : Cli D) → Said c.resp (cmd_copy hal args c).resp
  unfolding cmd_copy
  cmd_copy-Said args c =
      if_intro P (not (bl_bank_trusted (mem hal c) bank (some s)))
        (say (resp_err (codes "bad image")) c)
        (if not (bl_load_bank hal bank c.machine).0 then failed else done) (λ e. err _ nothing)
        (λ e.
          if_intro P (not (bl_load_bank hal bank c.machine).0) failed done (λ e. err _ nothing)
            (λ e. kv _ _ nothing))
    where
      P : Cli D → Type 0
      P q = Said c.resp q.resp

      s : Bytes
      s = (settings_load (mem hal c)).1

      bank : ℕ
      bank = selected_bank s

      m : Machine D
      m = (bl_load_bank hal bank c.machine).1

      failed : Cli D
      failed = say (resp_err (codes "copy")) (record c { machine = m })

      done : Cli D
      done = say (resp_kv_u (codes "copy") bank) (
          with_flash (flash_write_settings hal (put8 s 17 bank) m.flash).1.1
            (record c { machine = m }))

  pub cmd_rollback-Speaks :
      (rounds : ℕ) (args : Args) (c : Cli D) → Speaks hal rounds c (cmd_rollback hal args c)
  unfolding cmd_rollback
  cmd_rollback-Speaks rounds args c =
      if_intro (Speaks hal rounds c) (not (bl_bank_trusted (mem hal c) other (some s)))
        (answered (say (resp_err (codes "other bank invalid")) c))
        (if not saved.0 then answered (say (resp_err (codes "settings write")) c1) else boot)
        (λ e. inl (err _ nothing))
        (λ e.
          if_intro (Speaks hal rounds c) (not saved.0)
            (answered (say (resp_err (codes "settings write")) c1)) boot (λ e. inl (err _ nothing))
            (λ e.
              or_say-Speaks rounds (codes "boot failed") (bl_boot_app hal c1.machine) c1 c refl))
    where
      s : Bytes
      s = (settings_load (mem hal c)).1

      other : ℕ
      other = if active_bank s == 0 then 1 else 0

      saved : Bool × Session D
      saved = (flash_write_settings hal (put8 s 16 other) c.machine.flash).1

      c1 : Cli D
      c1 = with_flash saved.1 c

      boot : Reply D
      boot = or_say hal (codes "boot failed") (bl_boot_app hal c1.machine) c1
