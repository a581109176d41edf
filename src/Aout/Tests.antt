-- ===== src/Aout/Tests.antt =====
-- The frame of half scale on the second output.
use drdro_mainboard.Base.{ℕ, ◌≡◌, ◌==◌, if◌then◌else◌, min, refl, true, List, [], ◌∷◌, ◌++◌, arith}
use drdro_mainboard.Aout.{Dac, reg_vout0, reg_vout1, aout_write, aout_init, aout_apply}
use drdro_mainboard.Aout.Frame.{recorder, frame_code, aout_write-frame}

half_scale :
    (aout_apply
      (recorder true)
      (λ ch. 2048)
      (aout_init (recorder true) (record { bus = []; present = true })).1).bus
    ≡ (0x01, 0x11 ∷ []) ∷ (0x02, 0x00 ∷ 0x80 ∷ []) ∷ (0x04, 0x00 ∷ 0x80 ∷ []) ∷ []
unfolding aout_apply aout_init aout_write
half_scale = refl

abbrev ready_dac : Dac (List (ℕ × List ℕ))
ready_dac = record { bus = []; present = true }

aout_write-frame_example :
    (d : List ℕ) × (aout_write (recorder true) 1 5000 ready_dac ≡ (
      true,
      record ready_dac { bus = [] ++ ((if 1 == 0 then reg_vout0 else reg_vout1), d) ∷ [] },
    ))
    × (frame_code d ≡ min 5000 4095)
aout_write-frame_example = aout_write-frame true 1 5000 ready_dac (omega arith)
