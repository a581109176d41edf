-- ===== src/FwUpdate/Stream.antt =====
-- A whole update: what every outcome of a session says of the bytes it was fed.
use drdro_mainboard.Base.{
  ℕ, ◌+◌, ◌-◌, ◌*◌, ◌/◌, ◌^◌, ◌≤◌, ◌<◌, ◌≡◌, inl, inr, refl, ap, ◌∙◌, sym, true, false, Bool-cases,
  ltb, ◌==◌, eq-of-==, if◌then◌else◌, if_intro, u32, List, [], ◌∷◌, ◌++◌, append_assoc, append-nil,
  length, take, replicate, get_or, get_or-append_left, All, All-append, IsByte, length-append,
  arith,
}
use mathlib.Core.Bool.{false≢true}
use drdro_mainboard.Layout.{app_region_size, bank_base}
use drdro_mainboard.Hal.{FlashHal, IsFlash}
use drdro_mainboard.Crc.{crc32_loop, settings_crc32, complement}
use drdro_mainboard.Crc.Laws.{crc32_loop-append}
use drdro_mainboard.FwUpdate.{fw_flash_end}
use drdro_mainboard.FwUpdate.Session.{
  fw_recv, fw_done, fw_error, FwSession, Step, then_fill, unless_failed, fw_write_out,
  fw_flush_pend, fw_fill, fw_write_whole, fw_pad, fw_close_stream, fw_finish_stream, fw_feed,
}
use drdro_mainboard.FwUpdate.Out.{Flashed, Kept}
use drdro_mainboard.FwUpdate.Fill.{Fits, Carried, Kept-trans, fill_lem, whole_lem, pad_lem}

module _ {D : Type 0} (hal : FlashHal D) where
  -- A session that has received `fed` and waits for more.
  pub record Receiving (s : FwSession D) (fed : List ℕ) : Type 0 where
    pub carried : Carried hal fed s []
    pub bytes : All IsByte fed
    pub counted : s.received ≡ length fed
    pub checked : s.crc_run ≡ crc32_loop 0xFFFFFFFF fed
    pub in_size : length fed ≤ s.size
    pub in_region : s.size ≤ app_region_size
    pub waiting : s.state ≡ fw_recv

  -- A session that has stored `fed`: it is as long as announced, it has the announced CRC, and it
  -- stands in the bank.
  pub record Stored (s : FwSession D) (fed : List ℕ) : Type 0 where
    pub full : length fed ≡ s.size
    pub matching : settings_crc32 fed ≡ s.crc_want
    pub image : (k : ℕ) → k < s.size → hal.byte s.flash.dev (bank_base s.bank + k) ≡ get_or fed k 0

  -- The outcomes of a feed.
  pub data Fed (s : FwSession D) (fed : List ℕ) : Type 0 where
    receiving : Receiving s fed → length fed < s.size → Fed s fed
    stored : s.state ≡ fw_done → Stored s fed → Fed s fed
    failed : s.state ≡ fw_error → s.socket_open ≡ false → Fed s fed

  -- A step that fails leaves the session failed.
  abbrev FailsWell : Step D → Type 0
  FailsWell r = r.0 ≡ false → (r.1.state ≡ fw_error) × (r.1.socket_open ≡ false)

  write_out_fails : (w : List ℕ) (s : FwSession D) → FailsWell (fw_write_out hal w s)
  unfolding fw_write_out
  write_out_fails w s h = ground arith

  flush_fails : (s : FwSession D) → FailsWell (fw_flush_pend hal s)
  unfolding fw_flush_pend
  flush_fails s h = ground (arith, write_out_fails s.pend s)

  whole_fails : (p : List ℕ) (s : FwSession D) → FailsWell (fw_write_whole hal p s)
  unfolding fw_write_whole
  whole_fails p s h = ground (arith, write_out_fails (take (4 * (length p / 4)) p) s)

  pad_fails : (s : FwSession D) → FailsWell (fw_pad hal s)
  unfolding fw_pad
  pad_fails s h = ground (arith, write_out_fails (s.pend ++ replicate (4 - length s.pend) 0xFF) s)

  then_fails :
      (p : List ℕ) (r : Step D)
      → FailsWell r
      → ((t : FwSession D) → FailsWell (fw_fill hal p t).0)
      → FailsWell (then_fill p r (fw_fill hal p)).0
  then_fails p (true, t) h ih = ih t
  then_fails p (false, t) h ih = h

  fill_fails : (p : List ℕ) (s : FwSession D) → FailsWell (fw_fill hal p s).0
  unfolding fw_fill
  fill_fails [] s = λ h. absurd (false≢true (sym h))
  fill_fails (b ∷ p) s =
      let t : FwSession D = record s { pend = s.pend ++ b ∷ [] } in
      if_intro (λ (r : Step D × List ℕ). FailsWell r.0) (length s.pend == 0) ((true, s), b ∷ p)
        (then_fill p (fw_flush_pend hal t) (fw_fill hal p)) (λ e h. absurd (false≢true (sym h)))
        (λ e. then_fails p (fw_flush_pend hal t) (flush_fails t) (fill_fails p))

pub unless_intro :
    {D : Type 0} (P : FwSession D → Type 0) (r : Step D) (next : FwSession D → FwSession D)
    → (r.0 ≡ false → P r.1)
    → (r.0 ≡ true → P (next r.1))
    → P (unless_failed r next)
unless_intro P (true, t) next f g = g refl
unless_intro P (false, t) next f g = f refl

module _ {D : Type 0} (hal : FlashHal D) where
  Flashed-counted :
      (s : FwSession D) (out : List ℕ) (crc n : ℕ)
      → Flashed hal s out
      → Flashed hal (record s { crc_run = crc; received = n }) out
  Flashed-counted s out crc n h = record {
    bank_low = h.bank_low;
    at_base = h.at_base;
    at_sector = h.at_sector;
    count = h.count;
    words = h.words;
    within = h.within;
    erased = h.erased;
    content = h.content;
  }

module _ {D : Type 0} (hal : FlashHal D) (laws : IsFlash hal) where
  -- The stream's end: the pad, the close, the check.
  close_lem :
      (s : FwSession D) (total tail : List ℕ)
      → Flashed hal s (total ++ tail)
      → length total ≡ s.size
      → s.crc_run ≡ crc32_loop 0xFFFFFFFF total
      → Fed hal (fw_close_stream hal s) total
  unfolding fw_close_stream fw_flash_end settings_crc32
  close_lem s total tail h full crc = elim (Bool-cases (complement s.crc_run == s.crc_want)) [
    | inl good ↦ rw good (
        stored refl (record {
          full = full;
          matching = ap complement (sym crc) ∙ eq-of-== (complement s.crc_run) s.crc_want good;
          image = λ k lt.
              laws.lock_byte s.flash.dev (bank_base s.bank + k)
              ∙ h.content k (omega (arith, full, length-append total tail))
              ∙ get_or-append_left total tail k 0 (omega (arith, full));
        }))
    | inr bad ↦ rw bad (failed refl refl)
  ]

  finish_lem :
      (s : FwSession D) (total : List ℕ)
      → Carried hal total s []
      → Fits total
      → length total ≡ s.size
      → s.crc_run ≡ crc32_loop 0xFFFFFFFF total
      → Fed hal (fw_finish_stream hal s) total
  unfolding fw_finish_stream
  finish_lem s total c fits full crc =
      unless_intro (λ (t : FwSession D). Fed hal t total) (fw_pad hal s) (fw_close_stream hal)
        (λ h. let f = pad_fails hal s h in failed f.0 f.1)
        (λ h.
          let (tail, flashed, kept) = pad_lem hal laws s total c fits h in
          close_lem (fw_pad hal s).1 total tail flashed (full ∙ sym kept.0) (kept.2 ∙ crc))

  abbrev pub counted : List ℕ → FwSession D → FwSession D
  counted p s = record s {
    crc_run = crc32_loop s.crc_run p;
    received = u32 (s.received + length p);
  }

  -- A feed that fits starts from the bytes fed before.
  pub Receiving-start :
      (s : FwSession D) (fed p : List ℕ)
      → Receiving hal s fed
      → All IsByte p
      → length fed + length p ≤ s.size
      → Fits (fed ++ p) × Carried hal (fed ++ p) (counted p s) p
  Receiving-start s fed p h bytes room = (
    record {
      bytes = All-append IsByte fed p h.bytes bytes;
      fits = omega (arith, length-append fed p, room, h.in_region);
    },
    record {
      out = h.carried.out;
      flashed =
          Flashed-counted hal s h.carried.out (crc32_loop s.crc_run p) (u32 (s.received + length p))
            h.carried.flashed;
      whole =
          sym (append_assoc h.carried.out s.pend p)
          ∙ ap (λ (q : List ℕ). q ++ p)
              (ap (◌++◌ h.carried.out) (sym (append-nil s.pend)) ∙ h.carried.whole);
      short = h.carried.short;
    },
  )

  -- What follows the count, whatever was fed before.
  feed_counted :
      (s : FwSession D) (fed p : List ℕ)
      → Receiving hal s fed
      → All IsByte p
      → length fed + length p ≤ s.size
      → (let (r, rest) = fw_fill hal p (counted p s) in
          Fed hal
            (unless_failed r λ t.
              unless_failed
                (fw_write_whole hal rest t)
                λ u. if u.received == u.size then fw_finish_stream hal u else u)
            (fed ++ p))
  feed_counted s fed p h bytes room =
      unless_intro (λ (t : FwSession D). Fed hal t total) r
        (λ t. unless_failed (fw_write_whole hal rest t) last)
        (λ e. let f = fill_fails hal p s1 e in failed f.0 f.1)
        (λ e.
          let (c, kept, drained) = fill_lem hal laws p s1 total start fits e in
          unless_intro (λ (t : FwSession D). Fed hal t total) (fw_write_whole hal rest r.1) last
            (λ e2. let f = whole_fails hal rest r.1 e2 in failed f.0 f.1)
            (λ e2.
              let (c2, kept2) = whole_lem hal laws rest r.1 total c drained fits e2 in
              last_lem (fw_write_whole hal rest r.1).1 c2
                (Kept-trans s1 r.1 (fw_write_whole hal rest r.1).1 kept kept2)))
    where
      total : List ℕ
      total = fed ++ p

      long : length total ≡ length fed + length p
      long = length-append fed p

      s1 : FwSession D
      s1 = counted p s

      r : Step D
      r = (fw_fill hal p s1).0

      rest : List ℕ
      rest = (fw_fill hal p s1).1

      last : FwSession D → FwSession D
      last u = if u.received == u.size then fw_finish_stream hal u else u

      fits : Fits total
      fits = (Receiving-start s fed p h bytes room).0

      start : Carried hal total s1 p
      start = (Receiving-start s fed p h bytes room).1

      crc : s1.crc_run ≡ crc32_loop 0xFFFFFFFF total
      crc = ap (λ (c : ℕ). crc32_loop c p) h.checked ∙ sym (crc32_loop-append 0xFFFFFFFF fed p)

      last_lem : (u : FwSession D) → Carried hal total u [] → Kept s1 u → Fed hal (last u) total
      last_lem u c kept = elim (Bool-cases (u.received == u.size)) [
        | inl full ↦ rw full (
            finish_lem u total c fits
              (omega (
                arith,
                eq-of-== u.received u.size full,
                kept.1,
                h.counted,
                long,
                room,
                h.in_region,
              ))
              (kept.2 ∙ crc))
        | inr more ↦ rw more (
            receiving
              (record {
                carried = c;
                bytes = fits.bytes;
                counted = omega (arith, kept.1, h.counted, long, room, h.in_region);
                checked = kept.2 ∙ crc;
                in_size = omega (arith, kept.0, long, room);
                in_region = omega (arith, kept.0, h.in_region);
                waiting = kept.4 ∙ h.waiting;
              })
              (ground (arith, kept.0, kept.1, h.counted, long, room, h.in_region)))
      ]

  -- Every feed of a session that waits for more, of fewer than 2^31 bytes, has one of three
  -- outcomes: the session waits for more, and what is written out followed by what is pending is
  -- what it was fed; or all announced bytes are there, their CRC is the announced one and they
  -- stand in the bank; or it has failed and has closed its socket.
  pub fw_feed_lem :
      (s : FwSession D) (fed p : List ℕ)
      → Receiving hal s fed
      → All IsByte p
      → length p < 2 ^ 31
      → Fed hal (fw_feed hal p s) (fed ++ p)
  unfolding fw_feed
  fw_feed_lem s fed p h bytes short = elim (Bool-cases (ltb s.size (u32 (s.received + length p)))) [
    | inl over ↦ rw over (failed refl refl)
    | inr room ↦
        rw room (feed_counted s fed p h bytes (ground (arith, h.counted, h.in_size, h.in_region)))
  ]
