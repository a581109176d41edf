-- ===== src/FwUpdate/Receive.antt =====
-- A whole update: from `FwUpdateBegin` through the task's loop to its end.
use drdro_mainboard.Base.{
  ℕ, ◌+◌, ◌-◌, ◌^◌, ◌≤◌, ◌<◌, ◌≡◌, inl, inr, refl, ap, ◌∙◌, sym, subst, Bool, true, false,
  Bool-cases, ltb, ◌==◌, eq-of-==, if_intro, u32, List, [], ◌∷◌, ◌++◌, append_assoc, append-nil,
  length, get_or, All, IsByte, arith,
}
use drdro_mainboard.Layout.{app_region_size, bank_count, bank_base, bank_sector}
use drdro_mainboard.Hal.{FlashHal, IsFlash}
use drdro_mainboard.Crc.{crc32_loop, settings_crc32}
use drdro_mainboard.FwUpdate.{fw_flash_begin}
use drdro_mainboard.FwUpdate.Session.{
  fw_recv, fw_done, fw_error, no_reason, FwSession, is_recv, fw_update_begin, begun, Poll,
  SocketState, established, close_wait, closed, other_state, payload, fw_check_timeout,
  fw_idle_round, fw_poll, fw_receive, fw_fail, timeout_reason,
}
use drdro_mainboard.FwUpdate.Request.{OnRequest, fw_receive-OnRequest}
use drdro_mainboard.FwUpdate.Fill.{length-zero}
use drdro_mainboard.FwUpdate.Stream.{Receiving, Stored, Fed, receiving, stored, failed, fw_feed_lem}

-- All that the rounds offer.
abbrev pub offered : List Poll → List ℕ
offered [] = []
offered (e ∷ es) = payload e ++ offered es

-- The rounds receive bytes, at most 1024 in one.
abbrev pub AreChunks : List Poll → Type 0
AreChunks [] = Unit
AreChunks (e ∷ es) = All IsByte (payload e) × (length (payload e) ≤ 1024) × AreChunks es

module _ {D : Type 0} (hal : FlashHal D) where
  -- The session that an accepted request leaves.
  abbrev pub armed : ℕ → ℕ → ℕ → FwSession D → FwSession D
  armed bank size crc s = record {
    flash = fw_flash_begin hal (bank_base bank) (bank_sector bank) s.flash;
    state = fw_recv;
    reason = no_reason;
    bank = bank;
    size = size;
    crc_want = crc;
    received = 0;
    pend = [];
    written = 0;
    crc_run = 0xFFFFFFFF;
    socket_open = true;
  }

  pub begin_accepted :
      (leased listening : Bool) (bank size crc : ℕ) (s : FwSession D)
      → (fw_update_begin hal leased listening bank size crc s).0 ≡ begun
      → (bank < bank_count)
        × (0 < size)
        × (size ≤ app_region_size)
        × ((fw_update_begin hal leased listening bank size crc s).1 ≡ armed bank size crc s)
  unfolding fw_update_begin
  begin_accepted leased listening bank size crc s e = ground arith

  pub armed-Receiving :
      (bank size crc : ℕ) (s : FwSession D)
      → bank < bank_count
      → size ≤ app_region_size
      → Receiving hal (armed bank size crc s) []
  unfolding fw_flash_begin crc32_loop
  armed-Receiving bank size crc s low fits = record {
    carried = record {
      out = [];
      flashed = record {
        bank_low = low;
        at_base = refl;
        at_sector = refl;
        count = refl;
        words = refl;
        within = omega arith;
        erased = inl refl;
        content = λ k h. absurd (omega arith);
      };
      whole = refl;
      short = omega arith;
    };
    bytes = tt;
    counted = refl;
    checked = refl;
    in_size = omega arith;
    in_region = fits;
    waiting = refl;
  }

module _ {D : Type 0} (hal : FlashHal D) (laws : IsFlash hal) where
  timeout_lem :
      (now last : ℕ) (s : FwSession D) (fed : List ℕ)
      → Receiving hal s fed
      → length fed < s.size
      → Fed hal (fw_check_timeout hal now last s) fed
  unfolding fw_check_timeout
  timeout_lem now last s fed h more =
      if_intro (λ (t : FwSession D). Fed hal t fed) (ltb 10000 (u32 (now + 2 ^ 32 - last)))
        (fw_fail hal timeout_reason s) s (λ late. failed refl refl) (λ early. receiving h more)

  idle_lem :
      (r : SocketState) (avail : Bool) (now last : ℕ) (s : FwSession D) (fed : List ℕ)
      → Receiving hal s fed
      → length fed < s.size
      → Fed hal (fw_idle_round hal r avail now last s) fed
  unfolding fw_idle_round
  idle_lem established avail now last s fed h more = timeout_lem now last s fed h more
  idle_lem close_wait true now last s fed h more = timeout_lem now last s fed h more
  idle_lem close_wait false now last s fed h more = failed refl refl
  idle_lem closed avail now last s fed h more = failed refl refl
  idle_lem other_state avail now last s fed h more = timeout_lem now last s fed h more

  -- A round keeps the account: the session has been fed what it was, and the round's payload.
  poll_lem :
      (e : Poll) (last : ℕ) (s : FwSession D) (fed : List ℕ)
      → Receiving hal s fed
      → length fed < s.size
      → All IsByte (payload e)
      → length (payload e) ≤ 1024
      → Fed hal (fw_poll hal e (last, s)).1 (fed ++ payload e)
  unfolding fw_poll
  poll_lem e last s fed h more bytes short = elim (Bool-cases (length (payload e) == 0)) [
    | inl none ↦ rw none (
        subst (Fed hal (fw_idle_round hal e.status e.avail e.now last s))
          (sym (append-nil fed)
            ∙ ap (◌++◌ fed) (sym (length-zero (payload e) (eq-of-== (length (payload e)) 0 none))))
          (idle_lem e.status e.avail e.now last s fed h more))
    | inr some ↦ rw some (fw_feed_lem hal laws s fed (payload e) h bytes (omega arith))
  ]

  -- The account of a whole run: what the session was fed is a prefix of what was offered.
  abbrev pub Ran : FwSession D → List ℕ → Type 0
  Ran s all = (fed : List ℕ) × Fed hal s fed × ((rest : List ℕ) × (fed ++ rest ≡ all))

  pub stop :
      (es : List Poll) (t : ℕ × FwSession D) → is_recv t.1.state ≡ false → fw_receive hal es t ≡ t
  unfolding fw_receive
  stop [] t h = refl
  stop (e ∷ es) t h = rw h refl

  pub go_on :
      (e : Poll) (es : List Poll) (t : ℕ × FwSession D)
      → is_recv t.1.state ≡ true
      → fw_receive hal (e ∷ es) t ≡ fw_receive hal es (fw_poll hal e t)
  unfolding fw_receive
  go_on e es t h = rw h refl

  receive_lem :
      (es : List Poll) (t : ℕ × FwSession D) (fed : List ℕ)
      → Fed hal t.1 fed
      → AreChunks es
      → Ran (fw_receive hal es t).1 (fed ++ offered es)
  unfolding fw_receive
  receive_lem [] t fed h chunks = (fed, h, ([], refl))
  receive_lem (e ∷ es) t fed (stored d h) chunks =
      rw (stop (e ∷ es) t (ap is_recv d)) (fed, stored d h, (payload e ++ offered es, refl))
  receive_lem (e ∷ es) t fed (failed d h) chunks =
      rw (stop (e ∷ es) t (ap is_recv d)) (fed, failed d h, (payload e ++ offered es, refl))
  receive_lem (e ∷ es) t fed (receiving h more) chunks = rw (go_on e es t (ap is_recv h.waiting)) (
      subst (Ran (fw_receive hal es (fw_poll hal e t)).1)
        (append_assoc fed (payload e) (offered es))
        (receive_lem es (fw_poll hal e t) (fed ++ payload e)
          (poll_lem e t.0 t.1 fed h more chunks.0 chunks.1) chunks.2))

  -- An update that is accepted and then runs through any rounds ends in one of the three outcomes
  -- of a feed, on a prefix of the bytes that the rounds offered.
  pub update_lem :
      (leased listening : Bool) (bank size crc last : ℕ) (s : FwSession D) (es : List Poll)
      → (fw_update_begin hal leased listening bank size crc s).0 ≡ begun
      → AreChunks es
      → Ran
          (fw_receive hal es (last, (fw_update_begin hal leased listening bank size crc s).1)).1
          (offered es)
  update_lem leased listening bank size crc last s es e chunks =
      let (low, some, fits, same) = begin_accepted hal leased listening bank size crc s e in
      rw same (
        receive_lem es (last, armed hal bank size crc s) []
          (receiving (armed-Receiving hal bank size crc s low fits) (omega arith)) chunks)

  Fed-Stored :
      (s : FwSession D) (fed : List ℕ) → Fed hal s fed → s.state ≡ fw_done → Stored hal s fed
  Fed-Stored s fed (receiving h more) e = absurd (apart (sym h.waiting ∙ e))
    where
      apart : fw_recv ≡ fw_done → ⊥
      apart p = cc
  Fed-Stored s fed (stored d h) e = h
  Fed-Stored s fed (failed d h) e = absurd (apart (sym d ∙ e))
    where
      apart : fw_error ≡ fw_done → ⊥
      apart p = cc

  -- The first `size` bytes of what was received, of the CRC-32 `crc`, stand in the bank `bank`.
  abbrev pub StoredAt : ℕ → ℕ → ℕ → FwSession D → List ℕ → Type 0
  StoredAt bank size crc s all =
      (fed : List ℕ) × (length fed ≡ size)
      × (settings_crc32 fed ≡ crc)
      × ((rest : List ℕ) × (fed ++ rest ≡ all))
      × ((k : ℕ) → k < size → hal.byte s.flash.dev (bank_base bank + k) ≡ get_or fed k 0)

  begun-OnRequest :
      (leased listening : Bool) (bank size crc : ℕ) (s : FwSession D)
      → (fw_update_begin hal leased listening bank size crc s).0 ≡ begun
      → OnRequest bank size crc (fw_update_begin hal leased listening bank size crc s).1
  begun-OnRequest leased listening bank size crc s e =
      rw (begin_accepted hal leased listening bank size crc s e).3 (refl, refl, refl)

  at_request :
      (bank size crc : ℕ) (t : FwSession D) (all : List ℕ)
      → OnRequest bank size crc t
      → Ran t all
      → t.state ≡ fw_done
      → StoredAt bank size crc t all
  at_request bank size crc t all on (fed, h, rest) d =
      let s = Fed-Stored t fed h d in
      (
        fed,
        s.full ∙ on.1,
        s.matching ∙ on.2,
        rest,
        λ k low.
            ap (λ (b : ℕ). hal.byte t.flash.dev (bank_base b + k)) (sym on.0)
            ∙ s.image k (omega (arith, low, on.1)),
      )

  -- An accepted update that ends as done has stored the image: whatever the network delivers, in
  -- whatever pieces of at most 1024 bytes, and whatever the flash does, the first `size` bytes received
  -- have the CRC-32 that the request announced, and stand byte for byte at the base of the bank that the
  -- request named.
  pub update-Stored :
      (leased listening : Bool) (bank size crc last : ℕ) (s : FwSession D) (es : List Poll)
      → (fw_update_begin hal leased listening bank size crc s).0 ≡ begun
      → AreChunks es
      → (fw_receive hal es (last, (fw_update_begin hal leased listening bank size crc s).1)).1.state
        ≡ fw_done
      → StoredAt bank size crc
          (fw_receive hal es (last, (fw_update_begin hal leased listening bank size crc s).1)).1
          (offered es)
  update-Stored leased listening bank size crc last s es e chunks d =
      let t0 = (fw_update_begin hal leased listening bank size crc s).1 in
      at_request bank size crc (fw_receive hal es (last, t0)).1 (offered es)
        (fw_receive-OnRequest hal bank size crc es (last, t0)
          (begun-OnRequest leased listening bank size crc s e))
        (update_lem leased listening bank size crc last s es e chunks) d
