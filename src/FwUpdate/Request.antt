-- ===== src/FwUpdate/Request.antt =====
-- The request that a session was begun with, its bank, size and CRC-32, stands through every step.
use drdro_mainboard.Base.{
  ℕ, ◌+◌, ◌-◌, ◌*◌, ◌/◌, ◌^◌, ◌≡◌, Bool, true, false, ltb, ◌==◌, if◌then◌else◌, if_intro, u32, List,
  [], ◌∷◌, ◌++◌, length, take, drop, replicate,
}
use drdro_mainboard.Hal.{FlashHal}
use drdro_mainboard.Crc.{crc32_loop, complement}
use drdro_mainboard.FwUpdate.{fw_flash_write, fw_flash_end}
use drdro_mainboard.FwUpdate.Session.{
  FwSession, Step, SocketState, established, close_wait, closed, other_state, Poll, payload, listed,
  is_recv, size_reason, crc_reason, flash_reason, timeout_reason, fw_done, fw_error, unless_failed,
  then_fill, fw_fail, fw_write_out, fw_flush_pend, fw_fill, fw_write_whole, fw_pad, fw_close_stream,
  fw_finish_stream, fw_feed, fw_check_timeout, fw_idle_round, fw_poll, fw_receive,
}

-- The session is on the request.
abbrev pub OnRequest : {D : Type 0} → ℕ → ℕ → ℕ → FwSession D → Type 0
OnRequest bank size crc s = (s.bank ≡ bank) × (s.size ≡ size) × (s.crc_want ≡ crc)

module _ {D : Type 0} (hal : FlashHal D) (bank size crc : ℕ) where
  abbrev On : FwSession D → Type 0
  On s = OnRequest bank size crc s

  unless-OnRequest :
      (r : Step D) (next : FwSession D → FwSession D)
      → On r.1
      → ((t : FwSession D) → On t → On (next t))
      → On (unless_failed r next)
  unless-OnRequest (true, t) next h k = k t h
  unless-OnRequest (false, t) next h k = h

  fill-OnRequest :
      (p : List ℕ) (r : Step D) (next : FwSession D → Step D × List ℕ)
      → On r.1
      → ((t : FwSession D) → On t → On (next t).0.1)
      → On (then_fill p r next).0.1
  fill-OnRequest p (true, t) next h k = k t h
  fill-OnRequest p (false, t) next h k = h

  fw_write_out-OnRequest : (w : List ℕ) (s : FwSession D) → On s → On (fw_write_out hal w s).1
  unfolding fw_write_out
  fw_write_out-OnRequest w s h =
      let (rc, f) = fw_flash_write hal s.written (listed w) (length w) s.flash in
      if_intro (λ (r : Step D). On r.1) rc
        (true, record s { flash = f; written = u32 (s.written + length w) })
        (false, fw_fail hal flash_reason (record s { flash = f })) (λ e. h) (λ e. h)

  -- A step that writes and then changes the pending bytes.
  pend-OnRequest :
      (rc : Bool) (t : FwSession D) (p : List ℕ)
      → On t
      → On (if rc then record t { pend = p } else t)
  pend-OnRequest rc t p h = if_intro On rc (record t { pend = p }) t (λ e. h) (λ e. h)

  fw_flush_pend-OnRequest : (s : FwSession D) → On s → On (fw_flush_pend hal s).1
  unfolding fw_flush_pend
  fw_flush_pend-OnRequest s h =
      let (rc, t) = fw_write_out hal s.pend s in
      if_intro (λ (r : Step D). On r.1) (length s.pend == 4)
        (rc, if rc then record t { pend = [] } else t) (true, s)
        (λ e. pend-OnRequest rc t [] (fw_write_out-OnRequest s.pend s h)) (λ e. h)

  fw_fill-OnRequest : (p : List ℕ) (s : FwSession D) → On s → On (fw_fill hal p s).0.1
  unfolding fw_fill
  fw_fill-OnRequest [] s h = h
  fw_fill-OnRequest (b ∷ p) s h =
      let s' : FwSession D = record s { pend = s.pend ++ b ∷ [] } in
      if_intro (λ (r : Step D × List ℕ). On r.0.1) (length s.pend == 0) ((true, s), b ∷ p)
        (then_fill p (fw_flush_pend hal s') (fw_fill hal p)) (λ e. h)
        (λ e.
          fill-OnRequest p (fw_flush_pend hal s') (fw_fill hal p) (fw_flush_pend-OnRequest s' h)
            (fw_fill-OnRequest p))

  fw_write_whole-OnRequest : (p : List ℕ) (s : FwSession D) → On s → On (fw_write_whole hal p s).1
  unfolding fw_write_whole
  fw_write_whole-OnRequest p s h =
      let whole = 4 * (length p / 4) in
      let (rc, t) = fw_write_out hal (take whole p) s in
      if_intro (λ (r : Step D). On r.1) (whole == 0) (true, record s { pend = s.pend ++ p })
        (rc, if rc then record t { pend = t.pend ++ drop whole p } else t) (λ e. h)
        (λ e.
          pend-OnRequest rc t (t.pend ++ drop whole p) (fw_write_out-OnRequest (take whole p) s h))

  fw_pad-OnRequest : (s : FwSession D) → On s → On (fw_pad hal s).1
  unfolding fw_pad
  fw_pad-OnRequest s h =
      let w = s.pend ++ replicate (4 - length s.pend) 0xFF in
      let (rc, t) = fw_write_out hal w s in
      if_intro (λ (r : Step D). On r.1) (length s.pend == 0) (true, s)
        (rc, if rc then record t { pend = [] } else t) (λ e. h)
        (λ e. pend-OnRequest rc t [] (fw_write_out-OnRequest w s h))

  fw_finish_stream-OnRequest : (s : FwSession D) → On s → On (fw_finish_stream hal s)
  unfolding fw_finish_stream fw_close_stream
  fw_finish_stream-OnRequest s h =
      unless-OnRequest (fw_pad hal s) (fw_close_stream hal) (fw_pad-OnRequest s h) λ u k.
        let t : FwSession D = record u { flash = fw_flash_end hal u.flash; socket_open = false } in
        if_intro On (complement u.crc_run == u.crc_want) (record t { state = fw_done })
          (record t { reason = crc_reason; state = fw_error }) (λ e. k) (λ e. k)

  fw_feed-OnRequest : (p : List ℕ) (s : FwSession D) → On s → On (fw_feed hal p s)
  unfolding fw_feed
  fw_feed-OnRequest p s h =
      let counted : FwSession D = record s {
        crc_run = crc32_loop s.crc_run p;
        received = u32 (s.received + length p);
      } in
      let last = λ (u : FwSession D). if u.received == u.size then fw_finish_stream hal u else u in
      let (r, rest) = fw_fill hal p counted in
      if_intro On (ltb s.size (u32 (s.received + length p))) (fw_fail hal size_reason s)
        (unless_failed r λ t. unless_failed (fw_write_whole hal rest t) last) (λ e. h)
        (λ e.
          unless-OnRequest r (λ t. unless_failed (fw_write_whole hal rest t) last)
            (fw_fill-OnRequest p counted h)
            λ t k.
              unless-OnRequest (fw_write_whole hal rest t) last (fw_write_whole-OnRequest rest t k)
                λ u l.
                  if_intro On (u.received == u.size) (fw_finish_stream hal u) u
                    (λ e. fw_finish_stream-OnRequest u l) (λ e. l))

  check-OnRequest : (now last : ℕ) (s : FwSession D) → On s → On (fw_check_timeout hal now last s)
  unfolding fw_check_timeout
  check-OnRequest now last s h =
      if_intro On (ltb 10000 (u32 (now + 2 ^ 32 - last))) (fw_fail hal timeout_reason s) s (λ e. h)
        (λ e. h)

  idle-OnRequest :
      (r : SocketState) (avail : Bool) (now last : ℕ) (s : FwSession D)
      → On s
      → On (fw_idle_round hal r avail now last s)
  unfolding fw_idle_round
  idle-OnRequest established avail now last s h = check-OnRequest now last s h
  idle-OnRequest close_wait true now last s h = check-OnRequest now last s h
  idle-OnRequest close_wait false now last s h = h
  idle-OnRequest closed avail now last s h = h
  idle-OnRequest other_state avail now last s h = check-OnRequest now last s h

  fw_poll-OnRequest : (e : Poll) (t : ℕ × FwSession D) → On t.1 → On (fw_poll hal e t).1
  unfolding fw_poll
  fw_poll-OnRequest e (last, s) h =
      if_intro (λ (t : ℕ × FwSession D). On t.1) (length (payload e) == 0)
        (last, fw_idle_round hal e.status e.avail e.now last s) (e.now, fw_feed hal (payload e) s)
        (λ q. idle-OnRequest e.status e.avail e.now last s h)
        (λ q. fw_feed-OnRequest (payload e) s h)

  pub fw_receive-OnRequest :
      (es : List Poll) (t : ℕ × FwSession D) → On t.1 → On (fw_receive hal es t).1
  unfolding fw_receive
  fw_receive-OnRequest [] t h = h
  fw_receive-OnRequest (e ∷ es) t h =
      if_intro (λ (u : ℕ × FwSession D). On u.1) (is_recv t.1.state)
        (fw_receive hal es (fw_poll hal e t)) t
        (λ q. fw_receive-OnRequest es (fw_poll hal e t) (fw_poll-OnRequest e t h)) (λ q. h)
