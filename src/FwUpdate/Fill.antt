-- ===== src/FwUpdate/Fill.antt =====
-- The pending word: what the session has written out and what it still holds are together the bytes
-- it was fed, through every step of `fwFeed`.
use drdro_mainboard.Base.{
  ℕ, ◌-◌, ◌*◌, ◌/◌, ◌≤◌, ◌<◌, ◌≡◌, ◌⊎◌, inl, inr, refl, ap, ◌∙◌, sym, subst, true, false,
  Bool-cases, ◌==◌, eq-of-==, List, [], ◌∷◌, ◌++◌, append_assoc, append-nil, length, take, drop,
  replicate, take-append-drop, length-drop, length-replicate, All, All-append_left,
  All-append_right, All-append, All-replicate, IsByte, length-append, arith,
}
use mathlib.Core.Bool.{false≢true}
use drdro_mainboard.Layout.{app_region_size}
use drdro_mainboard.Hal.{FlashHal, IsFlash}
use drdro_mainboard.FwUpdate.Session.{
  FwSession, Step, then_fill, fw_write_out, fw_flush_pend, fw_fill, fw_write_whole, fw_pad,
}
use drdro_mainboard.FwUpdate.Out.{Flashed, Kept, fw_write_out_lem}

pub Kept-trans : {D : Type 0} (s t u : FwSession D) → Kept s t → Kept t u → Kept s u
Kept-trans s t u h k = (k.0 ∙ h.0, k.1 ∙ h.1, k.2 ∙ h.2, k.3 ∙ h.3, k.4 ∙ h.4, k.5 ∙ h.5)

pub length-zero {ℓ} : {A : Type ℓ} (xs : List A) → length xs ≡ 0 → xs ≡ []
length-zero [] h = refl
length-zero (x ∷ xs) h = absurd (omega arith)

-- A message that fits the bank.
pub record Fits (total : List ℕ) : Type 0 where
  pub bytes : All IsByte total
  pub fits : length total ≤ app_region_size

module _ {D : Type 0} (hal : FlashHal D) where
  pub Flashed-pend :
      (s : FwSession D) (out q : List ℕ)
      → Flashed hal s out
      → Flashed hal (record s { pend = q }) out
  Flashed-pend s out q h = record {
    bank_low = h.bank_low;
    at_base = h.at_base;
    at_sector = h.at_sector;
    count = h.count;
    words = h.words;
    within = h.within;
    erased = h.erased;
    content = h.content;
  }

  -- `total` is what is written out, then what is pending, then the rest.
  pub record Carried (total : List ℕ) (s : FwSession D) (rest : List ℕ) : Type 0 where
    pub out : List ℕ
    pub flashed : Flashed hal s out
    pub whole : out ++ (s.pend ++ rest) ≡ total
    pub short : length s.pend < 4

module _ {D : Type 0} (hal : FlashHal D) (laws : IsFlash hal) where
  -- Writing out the first bytes of what is to come.
  write_front :
      (s : FwSession D) (out w rest total : List ℕ)
      → Flashed hal s out
      → out ++ (w ++ rest) ≡ total
      → Fits total
      → (fw_write_out hal w s).0 ≡ true
      → Flashed hal (fw_write_out hal w s).1 (out ++ w)
        × Kept s (fw_write_out hal w s).1
        × ((fw_write_out hal w s).1.pend ≡ s.pend)
  write_front s out w rest total h e fits done =
      fw_write_out_lem hal laws w out s h
        (All-append_left IsByte w rest
          (All-append_right IsByte out (w ++ rest) (subst (All IsByte) (sym e) fits.bytes)))
        (omega (arith, ap length e, length-append out (w ++ rest), length-append w rest, fits.fits))
        done

  flush_full :
      (s : FwSession D)
      → (length s.pend == 4) ≡ true
      → (fw_flush_pend hal s).0 ≡ true
      → ((fw_write_out hal s.pend s).0 ≡ true)
        × (fw_flush_pend hal s ≡ (true, record (fw_write_out hal s.pend s).1 { pend = [] }))
  unfolding fw_flush_pend
  flush_full s full done = ground arith

  flush_short : (s : FwSession D) → (length s.pend == 4) ≡ false → fw_flush_pend hal s ≡ (true, s)
  unfolding fw_flush_pend
  flush_short s more = ground arith

  flush_lem :
      (s : FwSession D) (out rest total : List ℕ)
      → Flashed hal s out
      → out ++ (s.pend ++ rest) ≡ total
      → length s.pend ≤ 4
      → Fits total
      → (fw_flush_pend hal s).0 ≡ true
      → Carried hal total (fw_flush_pend hal s).1 rest × Kept s (fw_flush_pend hal s).1
  flush_lem s out rest total h e short fits done = elim (Bool-cases (length s.pend == 4)) [
    | inl full ↦
        let split : ((fw_write_out hal s.pend s).0 ≡ true)
            × (fw_flush_pend hal s ≡ (true, record (fw_write_out hal s.pend s).1 { pend = [] })) =
          flush_full s full done in
        let wrote = write_front s out s.pend rest total h e fits split.0 in
        rw split.1 (
          record {
            out = out ++ s.pend;
            flashed = Flashed-pend hal (fw_write_out hal s.pend s).1 (out ++ s.pend) [] wrote.0;
            whole = append_assoc out s.pend rest ∙ e;
            short = omega arith;
          },
          wrote.1,
        )
    | inr more ↦ rw (flush_short s more) (
      record { out = out; flashed = h; whole = e; short = ground arith },
      (refl, refl, refl, refl, refl, refl),
    )
  ]

  -- The rest of the loop is nothing, or the pending word is empty.
  abbrev pub Drained : FwSession D → List ℕ → Type 0
  Drained s rest = (length s.pend ≡ 0) ⊎ (length rest ≡ 0)

  -- What a fill that did not fail has done.
  abbrev Filled : List ℕ → FwSession D → Step D × List ℕ → Type 0
  Filled total s r = r.0.0 ≡ true → Carried hal total r.0.1 r.1 × Kept s r.0.1 × Drained r.0.1 r.1

  abbrev pub pushed : ℕ → FwSession D → FwSession D
  pushed b s = record s { pend = s.pend ++ b ∷ [] }

  pub pushed-Carried :
      (b : ℕ) (p : List ℕ) (s : FwSession D) (total : List ℕ)
      → Carried hal total s (b ∷ p)
      → Fits total
      → (fw_flush_pend hal (pushed b s)).0 ≡ true
      → Carried hal total (fw_flush_pend hal (pushed b s)).1 p
        × Kept s (fw_flush_pend hal (pushed b s)).1
  pushed-Carried b p s total c fits done =
      flush_lem (pushed b s) c.out p total (Flashed-pend hal s c.out (s.pend ++ b ∷ []) c.flashed)
        (ap (◌++◌ c.out) (append_assoc s.pend (b ∷ []) p) ∙ c.whole)
        (omega (arith, c.short, length-append s.pend (b ∷ []))) fits done

  fill_step :
      (b : ℕ) (p : List ℕ) (s : FwSession D) (total : List ℕ) (r : Step D)
      → Carried hal total s (b ∷ p)
      → Fits total
      → fw_flush_pend hal (pushed b s) ≡ r
      → ((t : FwSession D) → Carried hal total t p → Filled total t (fw_fill hal p t))
      → Filled total s (then_fill p r (fw_fill hal p))
  fill_step b p s total (false, t) c fits e ih done = absurd (false≢true done)
  fill_step b p s total (true, t) c fits e ih done =
      let moved = pushed-Carried b p s total c fits (ap (λ (q : Step D). q.0) e) in
      let moved_t : Carried hal total t p × Kept s t =
        subst (λ (q : Step D). Carried hal total q.1 p × Kept s q.1) e moved in
      let rest = ih t moved_t.0 done in
      (rest.0, Kept-trans s t (fw_fill hal p t).0.1 moved_t.1 rest.1, rest.2)

  pub fill_lem :
      (p : List ℕ) (s : FwSession D) (total : List ℕ)
      → Carried hal total s p
      → Fits total
      → Filled total s (fw_fill hal p s)
  unfolding fw_fill
  fill_lem [] s total c fits = λ done. (c, (refl, refl, refl, refl, refl, refl), inr refl)
  fill_lem (b ∷ p) s total c fits = elim (Bool-cases (length s.pend == 0)) [
    | inl none ↦
        rw none
          (λ done. (c, (refl, refl, refl, refl, refl, refl), inl (eq-of-== (length s.pend) 0 none)))
    | inr some ↦ rw some (
        fill_step b p s total (fw_flush_pend hal (pushed b s)) c fits refl
          (λ t d. fill_lem p t total d fits))
  ]

  whole_full :
      (p : List ℕ) (s : FwSession D)
      → (4 * (length p / 4) == 0) ≡ false
      → (fw_write_whole hal p s).0 ≡ true
      → let n = 4 * (length p / 4) in
        let t = (fw_write_out hal (take n p) s).1 in
        ((fw_write_out hal (take n p) s).0 ≡ true)
        × (fw_write_whole hal p s ≡ (true, record t { pend = t.pend ++ drop n p }))
  unfolding fw_write_whole
  whole_full p s some done = ground arith

  whole_short :
      (p : List ℕ) (s : FwSession D)
      → (4 * (length p / 4) == 0) ≡ true
      → fw_write_whole hal p s ≡ (true, record s { pend = s.pend ++ p })
  unfolding fw_write_whole
  whole_short p s none = ground arith

  whole_moved :
      (p : List ℕ) (s : FwSession D) (total : List ℕ)
      → Carried hal total s p
      → s.pend ≡ []
      → Fits total
      → (let n = 4 * (length p / 4) in
          let t = (fw_write_out hal (take n p) s).1 in
          ((fw_write_out hal (take n p) s).0 ≡ true)
          × (fw_write_whole hal p s ≡ (true, record t { pend = t.pend ++ drop n p })))
      → Carried hal total (fw_write_whole hal p s).1 [] × Kept s (fw_write_whole hal p s).1
  whole_moved p s total c none fits split = rw split.1 (
    record {
      out = c.out ++ front;
      flashed = Flashed-pend hal t (c.out ++ front) (t.pend ++ back) wrote.0;
      whole =
          ap (◌++◌ (c.out ++ front))
            (append-nil (t.pend ++ back) ∙ ap (λ (q : List ℕ). q ++ back) empty)
          ∙ append_assoc c.out front back
          ∙ order;
      short = omega (arith, ap length (ap (λ (q : List ℕ). q ++ back) empty), length-drop n p);
    },
    wrote.1,
  )
    where
      n : ℕ
      n = 4 * (length p / 4)

      front : List ℕ
      front = take n p

      back : List ℕ
      back = drop n p

      t : FwSession D
      t = (fw_write_out hal front s).1

      order : c.out ++ (front ++ back) ≡ total
      order =
          ap (◌++◌ c.out) (take-append-drop n p ∙ ap (λ (q : List ℕ). q ++ p) (sym none)) ∙ c.whole

      wrote : Flashed hal t (c.out ++ front) × Kept s t × (t.pend ≡ s.pend)
      wrote = write_front s c.out front back total c.flashed order fits split.0

      empty : t.pend ≡ []
      empty = wrote.2 ∙ none

  -- After the loop the rest is written, but for a tail shorter than a word.
  pub whole_lem :
      (p : List ℕ) (s : FwSession D) (total : List ℕ)
      → Carried hal total s p
      → Drained s p
      → Fits total
      → (fw_write_whole hal p s).0 ≡ true
      → Carried hal total (fw_write_whole hal p s).1 [] × Kept s (fw_write_whole hal p s).1
  whole_lem p s total c drained fits done = elim (Bool-cases (4 * (length p / 4) == 0)) [
    | inl none ↦ rw (whole_short p s none) (
      record {
        out = c.out;
        flashed = Flashed-pend hal s c.out (s.pend ++ p) c.flashed;
        whole = ap (◌++◌ c.out) (append-nil (s.pend ++ p)) ∙ c.whole;
        short =
            omega (
              arith,
              length-append s.pend p,
              eq-of-== (4 * (length p / 4)) 0 none,
              drained,
              c.short,
            );
      },
      (refl, refl, refl, refl, refl, refl),
    )
    | inr some ↦
        whole_moved p s total c (length-zero s.pend (ground (arith, some, drained))) fits
          (whole_full p s some done)
  ]

  pad_full :
      (s : FwSession D)
      → (length s.pend == 0) ≡ false
      → (fw_pad hal s).0 ≡ true
      → let w = s.pend ++ replicate (4 - length s.pend) 0xFF in
        ((fw_write_out hal w s).0 ≡ true)
        × (fw_pad hal s ≡ (true, record (fw_write_out hal w s).1 { pend = [] }))
  unfolding fw_pad
  pad_full s some done = ground arith

  pad_short : (s : FwSession D) → (length s.pend == 0) ≡ true → fw_pad hal s ≡ (true, s)
  unfolding fw_pad
  pad_short s none = ground arith

  -- The last word, padded: the whole message stands in the bank, with some bytes after it.
  pub pad_lem :
      (s : FwSession D) (total : List ℕ)
      → Carried hal total s []
      → Fits total
      → (fw_pad hal s).0 ≡ true
      → (tail : List ℕ) × Flashed hal (fw_pad hal s).1 (total ++ tail) × Kept s (fw_pad hal s).1
  pad_lem s total c fits done = elim (Bool-cases (length s.pend == 0)) [
    | inl none ↦ (
      [],
      rw (pad_short s none) (
          subst (Flashed hal s)
            (sym (
                ap (◌++◌ c.out) (
                  ap (λ (q : List ℕ). q ++ [])
                    (length-zero s.pend (eq-of-== (length s.pend) 0 none)))
                ∙ append-nil c.out)
              ∙ c.whole
              ∙ sym (append-nil total))
            c.flashed),
      rw (pad_short s none) (refl, refl, refl, refl, refl, refl),
    )
    | inr some ↦
        let fill : List ℕ = replicate (4 - length s.pend) 0xFF in
        let split = pad_full s some done in
        let nonempty : 0 < length s.pend = ground (arith, some) in
        let order : c.out ++ s.pend ≡ total = ap (◌++◌ c.out) (sym (append-nil s.pend)) ∙ c.whole in
        let wrote =
          fw_write_out_lem hal laws (s.pend ++ fill) c.out s c.flashed
            (All-append IsByte s.pend fill
              (All-append_right IsByte c.out s.pend (subst (All IsByte) (sym order) fits.bytes))
              (All-replicate IsByte (4 - length s.pend) 0xFF (omega arith)))
            (omega (
              arith,
              length-append s.pend fill,
              length-replicate {A = ℕ} (4 - length s.pend) 0xFF,
              c.short,
              c.flashed.words,
              ap length order,
              length-append c.out s.pend,
              fits.fits,
              nonempty,
            ))
            split.0 in
        (
          fill,
          rw split.1 (
              Flashed-pend hal (fw_write_out hal (s.pend ++ fill) s).1 (total ++ fill) [] (
                subst (Flashed hal (fw_write_out hal (s.pend ++ fill) s).1)
                  (sym (append_assoc c.out s.pend fill) ∙ ap (λ (q : List ℕ). q ++ fill) order)
                  wrote.0)),
          rw split.1 wrote.1,
        )
  ]
