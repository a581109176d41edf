-- ===== src/FwUpdate/Works.antt =====
-- On a part without a defect, no step of the stream fails.
use drdro_mainboard.Base.{
  ℕ, ◌+◌, ◌-◌, ◌*◌, ◌/◌, ◌%◌, ◌≤◌, ◌<◌, ◌≡◌, ◌⊎◌, inl, inr, refl, ap, ◌∙◌, sym, subst, Bool, true,
  false, ltb, ◌==◌, ==-of-eq, eq-of-==, if◌then◌else◌, if_intro, u32, List, [], ◌∷◌, ◌++◌,
  append_assoc, append-nil, length, take, drop, replicate, take-append-drop, length-take,
  length-replicate, All, All-append_left, All-append_right, All-append, All-replicate, IsByte,
  length-append, arith,
}
use mathlib.Core.Bool.{false≢true}
use drdro_mainboard.Layout.{app_region_size}
use drdro_mainboard.Hal.{FlashHal, IsFlash, Works}
use drdro_mainboard.Crc.{crc32_loop, settings_crc32, complement}
use drdro_mainboard.Crc.Laws.{crc32_loop-append}
use drdro_mainboard.Flash.{Session, Result, flash_program_write}
use drdro_mainboard.Flash.Works.{Prepared, flash_program_write-works}
use drdro_mainboard.FwUpdate.{FwFlash, fw_flash_write}
use drdro_mainboard.FwUpdate.Writes.{forget, outcome, fw_flash_write-flash_program_write}
use drdro_mainboard.FwUpdate.Session.{
  fw_recv, fw_done, FwSession, Step, listed, then_fill, unless_failed, fw_write_out, fw_flush_pend,
  fw_fill, fw_write_whole, fw_pad, fw_close_stream, fw_finish_stream, fw_feed,
}
use drdro_mainboard.FwUpdate.Out.{Flashed, Kept, listed-IsByte, lift, fw_write_out-true}
use drdro_mainboard.FwUpdate.Fill.{
  Carried, Drained, Fits, Flashed-pend, Kept-trans, length-zero, pushed, pushed-Carried, fill_lem,
  whole_lem, pad_lem,
}
use drdro_mainboard.FwUpdate.Stream.{Receiving, counted, Receiving-start, unless_intro}

module _ {D : Type 0} (hal : FlashHal D) (laws : IsFlash hal) (works : Works hal) where
  -- The session is ready for its next write.
  abbrev pub Ready : FwSession D → Type 0
  Ready s = Prepared hal laws works s.written (lift s.flash)

  -- A step that has not failed, and leaves the session ready.
  abbrev Goes : Step D → Type 0
  Goes r = (r.0 ≡ true) × Ready r.1

  then_fill-Goes :
      (p : List ℕ) (r : Step D) (next : FwSession D → Step D × List ℕ)
      → r.0 ≡ true
      → Goes (next r.1).0
      → Goes (then_fill p r next).0
  then_fill-Goes p (true, t) next h k = k
  then_fill-Goes p (false, t) next h k = absurd (false≢true h)

  fw_write_out-done :
      (w : List ℕ) (s : FwSession D)
      → (fw_flash_write hal s.written (listed w) (length w) s.flash).0 ≡ true
      → (fw_write_out hal w s).0 ≡ true
  unfolding fw_write_out
  fw_write_out-done w s done = ground arith

  forgotten :
      (s : Session D) {off : ℕ}
      → Prepared hal laws works off s
      → Prepared hal laws works off (lift (forget s))
  forgotten s p = record {
    on = record {
      sector_high = p.on.sector_high;
      sector_low = p.on.sector_low;
      at_base = p.on.at_base;
    };
    aligned = p.aligned;
    opened = p.opened;
    blank = p.blank;
  }

  write_out-works :
      (w out : List ℕ) (s : FwSession D)
      → Flashed hal s out
      → Ready s
      → All IsByte w
      → length w % 4 ≡ 0
      → length out + length w ≤ app_region_size
      → Goes (fw_write_out hal w s)
  write_out-works w out s h ready bytes aligned fits =
      subst Goes (sym (fw_write_out-true hal laws w s done).1) (
        refl,
        subst (λ (off : ℕ). Prepared hal laws works off (lift f)) {x = s.written + length w}
            {y = u32 (s.written + length w)} (omega (arith, h.count, fits))
            (subst (λ (g : FwFlash D). Prepared hal laws works (s.written + length w) (lift g))
              (sym twins) (forgotten twin.1 written.1)),
      )
    where
      twin : Result D
      twin = flash_program_write hal s.written (λ d. listed w) (length w) (lift s.flash)

      f : FwFlash D
      f = (fw_flash_write hal s.written (listed w) (length w) s.flash).1

      same : fw_flash_write hal s.written (listed w) (length w) s.flash ≡ outcome twin
      same = fw_flash_write-flash_program_write hal s.written (listed w) (length w) (lift s.flash)

      twins : f ≡ forget twin.1
      twins = ap (λ (r : Bool × FwFlash D). r.1) same

      written : (twin.0 ≡ true) × Prepared hal laws works (s.written + length w) twin.1
      written =
          flash_program_write-works hal laws works s.written (λ d. listed w) (length w)
            (lift s.flash) ready aligned (omega (arith, h.count, fits)) (λ d. listed-IsByte w bytes)

      done : (fw_write_out hal w s).0 ≡ true
      done = fw_write_out-done w s (ap (λ (r : Bool × FwFlash D). r.0) same ∙ written.0)

  -- The next bytes of a message that fits, in whole words.
  front-works :
      (s : FwSession D) (out w rest total : List ℕ)
      → Flashed hal s out
      → Ready s
      → out ++ (w ++ rest) ≡ total
      → Fits total
      → length w % 4 ≡ 0
      → Goes (fw_write_out hal w s)
  front-works s out w rest total h ready e fits aligned =
      write_out-works w out s h ready
        (All-append_left IsByte w rest
          (All-append_right IsByte out (w ++ rest) (subst (All IsByte) (sym e) fits.bytes)))
        aligned
        (omega (arith, ap length e, length-append out (w ++ rest), length-append w rest, fits.fits))

  -- A step that writes and then changes the pending bytes.
  pend-Goes :
      (r : Step D) (p : List ℕ) → Goes r → Goes (r.0, if r.0 then record r.1 { pend = p } else r.1)
  pend-Goes r p (done, ready) =
      (done, if_intro Ready r.0 (record r.1 { pend = p }) r.1 (λ e. ready) (λ e. ready))

  flush-works :
      (s : FwSession D) (out rest total : List ℕ)
      → Flashed hal s out
      → Ready s
      → out ++ (s.pend ++ rest) ≡ total
      → Fits total
      → Goes (fw_flush_pend hal s)
  unfolding fw_flush_pend
  flush-works s out rest total h ready e fits =
      let r = fw_write_out hal s.pend s in
      if_intro Goes (length s.pend == 4) (r.0, if r.0 then record r.1 { pend = [] } else r.1)
        (true, s)
        (λ full. pend-Goes r [] (
          front-works s out s.pend rest total h ready e fits
            (omega (arith, eq-of-== (length s.pend) 4 full))))
        (λ more. (refl, ready))

  fill-works :
      (p : List ℕ) (s : FwSession D) (total : List ℕ)
      → Carried hal total s p
      → Ready s
      → Fits total
      → Goes (fw_fill hal p s).0
  unfolding fw_fill
  fill-works [] s total c ready fits = (refl, ready)
  fill-works (b ∷ p) s total c ready fits =
      if_intro (λ (r : Step D × List ℕ). Goes r.0) (length s.pend == 0) ((true, s), b ∷ p)
        (then_fill p (fw_flush_pend hal (pushed hal laws b s)) (fw_fill hal p)) (λ e. (refl, ready))
        (λ e. then_fill-Goes p (fw_flush_pend hal (pushed hal laws b s)) (fw_fill hal p) flushed.0 (
          fill-works p (fw_flush_pend hal (pushed hal laws b s)).1 total
            (pushed-Carried hal laws b p s total c fits flushed.0).0 flushed.1 fits))
    where
      flushed : Goes (fw_flush_pend hal (pushed hal laws b s))
      flushed =
          flush-works (pushed hal laws b s) c.out p total
            (Flashed-pend hal s c.out (s.pend ++ b ∷ []) c.flashed) ready
            (ap (◌++◌ c.out) (append_assoc s.pend (b ∷ []) p) ∙ c.whole) fits

  whole-works :
      (p : List ℕ) (s : FwSession D) (total : List ℕ)
      → Carried hal total s p
      → Ready s
      → Drained hal laws s p
      → Fits total
      → Goes (fw_write_whole hal p s)
  unfolding fw_write_whole
  whole-works p s total c ready drained fits =
      let r = fw_write_out hal (take n p) s in
      if_intro Goes (n == 0) (true, record s { pend = s.pend ++ p })
        (r.0, if r.0 then record r.1 { pend = r.1.pend ++ drop n p } else r.1)
        (λ none. (refl, ready))
        (λ some. pend-Goes r (r.1.pend ++ drop n p) (
          front-works s c.out (take n p) (drop n p) total c.flashed ready
            (order (ground (arith, some, drained))) fits (omega (arith, length-take n p))))
    where
      n : ℕ
      n = 4 * (length p / 4)

      order : length s.pend ≡ 0 → c.out ++ (take n p ++ drop n p) ≡ total
      order none =
          ap (◌++◌ c.out)
            (take-append-drop n p ∙ ap (λ (q : List ℕ). q ++ p) (sym (length-zero s.pend none)))
          ∙ c.whole

  pad-works :
      (s : FwSession D) (total : List ℕ)
      → Carried hal total s []
      → Ready s
      → Fits total
      → (fw_pad hal s).0 ≡ true
  unfolding fw_pad
  pad-works s total c ready fits =
      let r = fw_write_out hal w s in
      if_intro (λ (q : Step D). q.0 ≡ true) (length s.pend == 0) (true, s)
        (r.0, if r.0 then record r.1 { pend = [] } else r.1) (λ none. refl)
        (λ some.
          (write_out-works w c.out s c.flashed ready
            (All-append IsByte s.pend fill
              (All-append_right IsByte c.out s.pend (subst (All IsByte) (sym order) fits.bytes))
              (All-replicate IsByte (4 - length s.pend) 0xFF (omega arith)))
            (omega (arith, long, c.short))
            (omega (
              arith,
              long,
              c.short,
              c.flashed.words,
              ap length order,
              length-append c.out s.pend,
              fits.fits,
              nonempty some,
            ))).0)
    where
      fill : List ℕ
      fill = replicate (4 - length s.pend) 0xFF

      w : List ℕ
      w = s.pend ++ fill

      long : length w ≡ length s.pend + (4 - length s.pend)
      long =
          length-append s.pend fill
          ∙ ap (◌+◌ (length s.pend)) (length-replicate {A = ℕ} (4 - length s.pend) 0xFF)

      order : c.out ++ s.pend ≡ total
      order = ap (◌++◌ c.out) (sym (append-nil s.pend)) ∙ c.whole

      nonempty : (length s.pend == 0) ≡ false → 0 < length s.pend
      nonempty some = ground (arith, some)

  -- Neither failed nor idle, and on the same request as `s`.
  abbrev pub Alive : FwSession D → FwSession D → Type 0
  Alive s t =
      ((t.state ≡ fw_recv) × Ready t ⊎ (t.state ≡ fw_done))
      × (t.size ≡ s.size)
      × (t.crc_want ≡ s.crc_want)

  unless-Alive :
      (s : FwSession D) (r : Step D) (next : FwSession D → FwSession D)
      → r.0 ≡ true
      → Alive s (next r.1)
      → Alive s (unless_failed r next)
  unless-Alive s r next h k =
      unless_intro (Alive s) r next (λ e. absurd (false≢true (sym e ∙ h))) (λ e. k)

  finish-works :
      (s : FwSession D) (total : List ℕ)
      → Carried hal total s []
      → Ready s
      → Fits total
      → complement s.crc_run ≡ s.crc_want
      → Alive s (fw_finish_stream hal s)
  unfolding fw_finish_stream fw_close_stream
  finish-works s total c ready fits crc =
      let t = (fw_pad hal s).1 in
      let (tail, flashed, kept) =
        pad_lem hal laws s total c fits (pad-works s total c ready fits) in
      unless-Alive s (fw_pad hal s) (fw_close_stream hal) (pad-works s total c ready fits) (
        rw (==-of-eq (complement t.crc_run) t.crc_want (ap complement kept.2 ∙ crc ∙ sym kept.3))
          (inr refl, kept.0, kept.3))

  -- A feed of the bytes that are missing, or fewer, does not fail.
  pub feed-works :
      (s : FwSession D) (fed p : List ℕ)
      → Receiving hal s fed
      → Ready s
      → All IsByte p
      → length fed + length p ≤ s.size
      → (length fed + length p ≡ s.size → settings_crc32 (fed ++ p) ≡ s.crc_want)
      → Alive s (fw_feed hal p s)
  unfolding fw_feed settings_crc32
  feed-works s fed p h ready bytes room crc = rw over (
      unless-Alive s r (λ t. unless_failed (fw_write_whole hal rest t) last) filled.0
        (unless-Alive s (fw_write_whole hal rest r.1) last wrote.0 (
          last_lem (fw_write_whole hal rest r.1).1 moved.0 wrote.1
            (Kept-trans s1 r.1 (fw_write_whole hal rest r.1).1 fill.1 moved.1))))
    where
      total : List ℕ
      total = fed ++ p

      s1 : FwSession D
      s1 = counted hal laws p s

      r : Step D
      r = (fw_fill hal p s1).0

      rest : List ℕ
      rest = (fw_fill hal p s1).1

      last : FwSession D → FwSession D
      last u = if u.received == u.size then fw_finish_stream hal u else u

      over : ltb s.size (u32 (s.received + length p)) ≡ false
      over = ground (arith, h.counted, room, h.in_region)

      start : Fits total × Carried hal total s1 p
      start = Receiving-start hal laws s fed p h bytes room

      filled : Goes r
      filled = fill-works p s1 total start.1 ready start.0

      fill : Carried hal total r.1 rest × Kept s1 r.1 × Drained hal laws r.1 rest
      fill = fill_lem hal laws p s1 total start.1 start.0 filled.0

      wrote : Goes (fw_write_whole hal rest r.1)
      wrote = whole-works rest r.1 total fill.0 filled.1 fill.2 start.0

      moved :
          Carried hal total (fw_write_whole hal rest r.1).1 []
          × Kept r.1 (fw_write_whole hal rest r.1).1
      moved = whole_lem hal laws rest r.1 total fill.0 fill.2 start.0 wrote.0

      last_lem : (u : FwSession D) → Carried hal total u [] → Ready u → Kept s1 u → Alive s (last u)
      last_lem u c ready kept =
          if_intro (Alive s) (u.received == u.size) (fw_finish_stream hal u) u
            (λ full.
              let done = finish-works u total c ready start.0 (
                ap complement (
                  kept.2
                  ∙ ap (λ (x : ℕ). crc32_loop x p) h.checked
                  ∙ sym (crc32_loop-append 0xFFFFFFFF fed p))
                ∙ crc (
                    omega (
                      arith,
                      eq-of-== u.received u.size full,
                      kept.0,
                      kept.1,
                      h.counted,
                      room,
                      h.in_region,
                    ))
                ∙ sym kept.3) in
              (done.0, done.1 ∙ kept.0, done.2 ∙ kept.3))
            (λ more. (inl (kept.4 ∙ h.waiting, ready), kept.0, kept.3))
