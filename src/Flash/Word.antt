-- ===== src/Flash/Word.antt =====
-- `program_verify`: what it writes and what it leaves alone.
use drdro_mainboard.Base.{
  ℕ, zero, suc, ◌+◌, ◌-◌, ◌*◌, ◌^◌, ◌≤◌, ◌<◌, ◌≡◌, refl, ap, ◌∙◌, sym, true, false, u32, Bytes,
  le32, arith, IsByte, bytes_of_le32,
}
use native.Mathlib.Nat.{add-zero}
use native.Mathlib.Decide.{dec_lt}
use drdro_mainboard.Hal.{FlashHal, IsFlash, SameOutside}
use drdro_mainboard.Flash.{Session, Result, and_then, read32, program_word, program_verify}

module _ {D : Type 0} (hal : FlashHal D) where
  -- A source whose first `size` bytes do not depend on what stands from `lo` up to `hi`.
  pub record IsSource (src : D → Bytes) (size lo hi : ℕ) : Type 0 where
    pub steady : (d d' : D) → SameOutside hal lo hi d d' → (k : ℕ) → k < size → src d' k ≡ src d k
    pub yields_bytes : (d : D) (k : ℕ) → IsByte (src d k)

  -- Chaining two steps.
  pub and_then-SameOutside :
      (lo hi : ℕ) (d : D) (r : Result D) (next : Session D → Result D)
      → SameOutside hal lo hi d r.1.dev
      → SameOutside hal lo hi r.1.dev (next r.1).1.dev
      → SameOutside hal lo hi d (and_then r next).1.dev
  and_then-SameOutside lo hi d (true, s) next p q a out = q a out ∙ p a out
  and_then-SameOutside lo hi d (false, s) next p q a out = p a out

  pub SameOutside-widen :
      (lo hi lo' hi' : ℕ) (d d' : D)
      → lo' ≤ lo
      → hi ≤ hi'
      → SameOutside hal lo hi d d'
      → SameOutside hal lo' hi' d d'
  SameOutside-widen lo hi lo' hi' d d' h k same a out = same a (omega arith)

  pub IsSource-narrow :
      (src : D → Bytes) (size lo hi lo' hi' : ℕ)
      → lo ≤ lo'
      → hi' ≤ hi
      → IsSource src size lo hi
      → IsSource src size lo' hi'
  IsSource-narrow src size lo hi lo' hi' h k source = record {
    steady = λ d d' same. source.steady d d' (SameOutside-widen lo' hi' lo hi d d' h k same);
    yields_bytes = source.yields_bytes;
  }

pub and_then-true :
    {D : Type 0} (r : Result D) (next : Session D → Result D)
    → (and_then r next).0 ≡ true
    → (r.0 ≡ true) × (and_then r next ≡ next r.1)
and_then-true (true, s) next h = (refl, refl)
and_then-true (false, s) next h = cc

-- Equal words have equal bytes.
word_byte :
    (m m' : Bytes) (a i k : ℕ)
    → ((j : ℕ) → IsByte (m j))
    → ((j : ℕ) → IsByte (m' j))
    → le32 m a ≡ le32 m' i
    → k < 4
    → m (a + k) ≡ m' (i + k)
word_byte m m' a i k h h' e lt = go k lt
  where
    parts :
        (m a ≡ m' i)
        × (m (a + 1) ≡ m' (i + 1))
        × (m (a + 2) ≡ m' (i + 2))
        × (m (a + 3) ≡ m' (i + 3))
    parts =
        bytes_of_le32 (m a) (m (a + 1)) (m (a + 2)) (m (a + 3)) (m' i) (m' (i + 1)) (m' (i + 2))
          (m' (i + 3)) (h a) (h (a + 1)) (h (a + 2)) (h (a + 3)) (h' i) (h' (i + 1)) (h' (i + 2))
          (h' (i + 3)) e

    go : (j : ℕ) → j < 4 → m (a + j) ≡ m' (i + j)
    go zero p = rw (add-zero a, add-zero i) parts.0
    go (suc zero) p = parts.1
    go (suc (suc zero)) p = parts.2
    go (suc (suc (suc zero))) p = parts.3
    go (suc (suc (suc (suc j)))) p = absurd (omega arith)

module _ {D : Type 0} (hal : FlashHal D) (laws : IsFlash hal) where
  pub program_word-SameOutside :
      (a w : ℕ) (s : Session D) → SameOutside hal a (a + 4) s.dev (program_word hal a w s).1.dev
  unfolding program_word
  program_word-SameOutside a w s b out = ground (arith, laws.program_local a w s.dev b out)

  program_word-ok :
      (a w : ℕ) (s : Session D)
      → (program_word hal a w s).0 ≡ true
      → read32 hal (program_word hal a w s).1.dev a ≡ w
  unfolding program_word
  program_word-ok a w s h = ground arith

  program_word-session :
      (a w : ℕ) (s : Session D)
      → let s' = (program_word hal a w s).1 in
        (s'.base ≡ s.base) × (s'.sector ≡ s.sector) × (s'.erased ≡ s.erased)
  unfolding program_word
  program_word-session a w s = ground arith

  -- The target of the session stays.
  pub program_verify-session :
      (src : D → Bytes) (n i addr : ℕ) (s : Session D)
      → let s' = (program_verify hal src n i addr s).1 in
        (s'.base ≡ s.base) × (s'.sector ≡ s.sector) × (s'.erased ≡ s.erased)
  unfolding program_verify
  program_verify-session src zero i addr s = (refl, refl, refl)
  program_verify-session src (suc n) i addr s =
      let r : Result D = program_word hal (u32 (addr + i)) (le32 (src s.dev) i) s in
      ground (
        arith,
        program_word-session (u32 (addr + i)) (le32 (src s.dev) i) s,
        program_verify-session src n (i + 4) addr r.1,
      )

  -- Whatever its outcome, the loop changes nothing outside its span.
  pub program_verify-SameOutside :
      (src : D → Bytes) (n i addr : ℕ) (s : Session D)
      → addr + i + 4 * n ≤ 2 ^ 32
      → SameOutside hal
          (addr + i)
          (addr + i + 4 * n)
          s.dev
          (program_verify hal src n i addr s).1.dev
  unfolding program_verify
  program_verify-SameOutside src zero i addr s fits b out = refl
  program_verify-SameOutside src (suc n) i addr s fits c c_out =
      and_then-SameOutside hal (addr + i) (addr + i + 4 * suc n) s.dev first
        (program_verify hal src n (i + 4) addr)
        (λ b out. program_word-SameOutside (u32 (addr + i)) (le32 (src s.dev) i) s b (omega arith))
        (λ b out.
          program_verify-SameOutside src n (i + 4) addr first.1 (omega arith) b (omega arith))
        c c_out
    where
      first : Result D
      first = program_word hal (u32 (addr + i)) (le32 (src s.dev) i) s

  -- If it succeeds, every byte of the span reads back as the source's.
  pub program_verify-ok :
      (src : D → Bytes) (size n i addr : ℕ) (s : Session D)
      → addr + i + 4 * n ≤ 2 ^ 32
      → i + 4 * n ≤ size
      → IsSource hal src size (addr + i) (addr + i + 4 * n)
      → (program_verify hal src n i addr s).0 ≡ true
      → (k : ℕ) → k < 4 * n
      → hal.byte (program_verify hal src n i addr s).1.dev (addr + i + k) ≡ src s.dev (i + k)
  unfolding program_verify
  program_verify-ok src size zero i addr s fits within source ok k lt = absurd (omega arith)
  program_verify-ok src size (suc n) i addr s fits within source ok k lt =
      ap (λ (r : Result D). hal.byte r.1.dev (addr + i + k)) split.1 ∙ elim (dec_lt k 4) [
        | yes small ↦
            program_verify-SameOutside src n (i + 4) addr first.1 (omega arith) (addr + i + k)
              (omega arith)
            ∙ word_byte (hal.byte first.1.dev) (src s.dev) (addr + i) i k
                (laws.byte_range first.1.dev) (source.yields_bytes s.dev) word small
        | no large ↦
            ap (hal.byte rest.1.dev) {x = addr + i + k} {y = addr + (i + 4) + (k - 4)} (omega arith)
            ∙ program_verify-ok src size n (i + 4) addr first.1 (omega arith) (omega arith)
                (IsSource-narrow hal src size (addr + i) (addr + i + 4 * suc n) (addr + (i + 4))
                  (addr + (i + 4) + 4 * n) (omega arith) (omega arith) source)
                (ap (λ (r : Result D). r.0) (sym split.1) ∙ ok) (k - 4) (omega arith)
            ∙ source.steady s.dev first.1.dev first_local (i + 4 + (k - 4)) (omega arith)
            ∙ ap (src s.dev) {x = i + 4 + (k - 4)} {y = i + k} (omega arith)
      ]
    where
      no_wrap : u32 (addr + i) ≡ addr + i
      no_wrap = omega arith

      first : Result D
      first = program_word hal (u32 (addr + i)) (le32 (src s.dev) i) s

      rest : Result D
      rest = program_verify hal src n (i + 4) addr first.1

      split : (first.0 ≡ true) × (and_then first (program_verify hal src n (i + 4) addr) ≡ rest)
      split = and_then-true first (program_verify hal src n (i + 4) addr) ok

      word : le32 (hal.byte first.1.dev) (addr + i) ≡ le32 (src s.dev) i
      word =
          ap (le32 (hal.byte first.1.dev)) {x = addr + i} {y = u32 (addr + i)} (omega arith)
          ∙ program_word-ok (u32 (addr + i)) (le32 (src s.dev) i) s split.0

      first_local : SameOutside hal (addr + i) (addr + i + 4 * suc n) s.dev first.1.dev
      first_local =
          λ b out. program_word-SameOutside (u32 (addr + i)) (le32 (src s.dev) i) s b (omega arith)
