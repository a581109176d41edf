-- ===== src/Aout/Frame.antt =====
-- What is on the bus after a write of an output.
use drdro_mainboard.Base.{
  ℕ, ◌+◌, ◌*◌, ◌/◌, ◌≤◌, ◌<◌, ◌≡◌, ◌∙◌, Bool, false, ltb, ◌==◌, if◌then◌else◌, min, List, [], ◌∷◌,
  ◌++◌, arith,
}
use drdro_mainboard.Aout.{Bus, Dac, reg_vout0, reg_vout1, dac_frame, aout_write}

-- A bus that records what it is given, and answers as it is told.
abbrev pub recorder : Bool → Bus (List (ℕ × List ℕ))
recorder answer = record { write = λ reg d log. (answer, log ++ (reg, d) ∷ []) }

-- The code that a frame carries, as the converter takes it: the upper twelve of the sixteen bits.
abbrev pub frame_code : List ℕ → ℕ
frame_code (lo ∷ hi ∷ []) = (lo + 256 * hi) / 16
frame_code _ = 0

frame_lem : (raw : ℕ) → raw ≤ 4095 → frame_code (dac_frame raw) ≡ raw
frame_lem raw h = omega arith

-- A write to one of the two outputs puts one frame on the bus, to the register of its channel, whose
-- code is the value limited to 4095, and returns what the bus answers.
pub aout_write-frame :
    (answer : Bool) (ch raw : ℕ) (s : Dac (List (ℕ × List ℕ)))
    → ch ≤ 1
    → (d : List ℕ) × (aout_write (recorder answer) ch raw s ≡ (
      answer,
      record s { bus = s.bus ++ ((if ch == 0 then reg_vout0 else reg_vout1), d) ∷ [] },
    ))
      × (frame_code d ≡ min raw 4095)
unfolding aout_write
aout_write-frame answer ch raw s low =
    (dac_frame code, ground arith, frame_lem code (ground arith) ∙ ground arith)
  where
    code : ℕ
    code = if ltb 4095 raw then 4095 else raw

-- A channel above 1 puts nothing on the bus.
aout_write-refused :
    (answer : Bool) (ch raw : ℕ) (s : Dac (List (ℕ × List ℕ)))
    → 1 < ch
    → aout_write (recorder answer) ch raw s ≡ (false, s)
unfolding aout_write
aout_write-refused answer ch raw s high = ground arith
