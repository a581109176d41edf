-- ===== src/Din/Debounce.antt =====
-- An input takes a new level over after a whole window of it, and not before.
use drdro_mainboard.Base.{
  ℕ, zero, suc, ◌+◌, ◌-◌, ◌≤◌, ◌<◌, ◌≡◌, refl, ap, ◌∙◌, sym, not, All, List, [], ◌∷◌, Bool, true,
  false, leb, if◌then◌else◌, u8, u32, arith,
}
use drdro_mainboard.Din.{Channel, window_of, same, din_channel}

-- The same reading for `n` rounds.
abbrev pub held : ℕ → ℕ → Bool → Channel → Channel
held zero window raw c = c
held (suc n) window raw c = din_channel window raw (held n window raw c)

-- Runs of the same reading, each ended by one round of the opposite.
abbrev pub flickered : List ℕ → ℕ → Bool → Channel → Channel
flickered [] window raw c = c
flickered (n ∷ ns) window raw c =
    flickered ns window raw (din_channel window (not raw) (held n window raw c))

window_of-range : (deb : ℕ) → (1 ≤ window_of deb) × (window_of deb ≤ 250)
unfolding window_of
window_of-range deb = ground arith

held_short :
    (n deb : ℕ) (raw : Bool) (c : Channel)
    → same raw c.active ≡ false
    → c.integ ≡ 0
    → n < window_of deb
    → held n (window_of deb) raw c ≡ record c { integ = n }
unfolding din_channel
held_short zero deb raw c h e low = ap (λ (k : ℕ). record c { integ = k }) e
held_short (suc n) deb raw c h e low =
    ap (din_channel (window_of deb) raw) (held_short n deb raw c h e (omega arith))
    ∙ rw h (
        ground (
          arith,
          window_of-range deb,
          ap (λ (k : ℕ). record c { integ = k }) {x = u8 (n + 1)} {y = suc n}
              (omega (arith, window_of-range deb)),
        ))

short_run :
    (n deb : ℕ) (raw : Bool) (c : Channel)
    → same raw c.active ≡ false
    → c.integ ≡ 0
    → n < window_of deb
    → din_channel (window_of deb) (not raw) (held n (window_of deb) raw c) ≡ c
unfolding din_channel
short_run n deb raw c h e low =
    ap (din_channel (window_of deb) (not raw)) (held_short n deb raw c h e low)
    ∙ rw (opposite raw c.active h) (ap (λ (k : ℕ). record c { integ = k }) (sym e))
  where
    opposite : (a b : Bool) → same a b ≡ false → same (not a) b ≡ true
    opposite true true h = sym h
    opposite true false h = refl
    opposite false true h = refl
    opposite false false h = sym h

flickered_lem :
    (ns : List ℕ) (deb : ℕ) (raw : Bool) (c : Channel)
    → same raw c.active ≡ false
    → c.integ ≡ 0
    → All (λ n. n < window_of deb) ns
    → flickered ns (window_of deb) raw c ≡ c
flickered_lem [] deb raw c h e low = refl
flickered_lem (n ∷ ns) deb raw c h e low =
    ap (flickered ns (window_of deb) raw) (short_run n deb raw c h e low.0)
    ∙ flickered_lem ns deb raw c h e low.1

held_full :
    (deb : ℕ) (raw : Bool) (c : Channel)
    → same raw c.active ≡ false
    → c.integ ≡ 0
    → held (window_of deb) (window_of deb) raw c
      ≡ record { integ = 0; active = raw; count = if raw then u32 (c.count + 1) else c.count }
unfolding din_channel
held_full deb raw c h e =
    ap (λ (k : ℕ). held k (window_of deb) raw c) {x = window_of deb} {y = suc last}
      (omega (arith, window_of-range deb))
    ∙ ap (din_channel (window_of deb) raw)
        (held_short last deb raw c h e (omega (arith, window_of-range deb)))
    ∙ rw h (rw full refl)
  where
    last : ℕ
    last = window_of deb - 1

    full : leb (u8 (window_of deb)) (u8 (last + 1)) ≡ true
    full = ground (arith, window_of-range deb)

-- An input takes a reading that differs from its state over exactly when it has differed for the whole
-- window without a break; the window is `debounceMs` limited to 1 to 250. However the reading flickers
-- first, in runs of differing rounds shorter than the window, each ended by a round that agrees with the
-- state, such a run leaves no trace: after it, fewer rounds than the window leave the state and the
-- count as they were, and after a whole window the state is the reading, the counter is 0 again and the
-- count has gone up by one, modulo 2^32, if the input became active.
pub din_channel-window :
    (ns : List ℕ) (n deb : ℕ) (raw : Bool) (c : Channel)
    → same raw c.active ≡ false
    → c.integ ≡ 0
    → All (λ m. m < window_of deb) ns
    → n < window_of deb
    → (held n (window_of deb) raw (flickered ns (window_of deb) raw c) ≡ record c { integ = n })
      × (held (window_of deb) (window_of deb) raw (flickered ns (window_of deb) raw c)
          ≡ record { integ = 0; active = raw; count = if raw then u32 (c.count + 1) else c.count })
din_channel-window ns n deb raw c h e short low = (
  ap (held n (window_of deb) raw) back ∙ held_short n deb raw c h e low,
  ap (held (window_of deb) (window_of deb) raw) back ∙ held_full deb raw c h e,
)
  where
    back : flickered ns (window_of deb) raw c ≡ c
    back = flickered_lem ns deb raw c h e short
