-- ===== src/Din/Tests.antt =====
-- A rising edge with a window of 5 ms.
use drdro_mainboard.Base.{◌+◌, ◌≡◌, ◌<◌, refl, [], ◌∷◌, true, false, u32, if◌then◌else◌, arith}
use drdro_mainboard.Din.{Channel, window_of}
use drdro_mainboard.Din.Debounce.{held, flickered, din_channel-window}

abbrev idle_input : Channel
idle_input = record { integ = 0; active = false; count = 41 }

in_window : (4 < window_of 5) × (2 < window_of 5)
unfolding window_of
in_window = (omega arith, omega arith)

-- Two short bounces before the edge.
din_channel-window_example :
    (held 4 (window_of 5) true (flickered (4 ∷ 2 ∷ []) (window_of 5) true idle_input)
      ≡ record idle_input { integ = 4 })
    × (held (window_of 5) (window_of 5) true (flickered (4 ∷ 2 ∷ []) (window_of 5) true idle_input)
        ≡ record { integ = 0; active = true; count = if true then u32 (41 + 1) else 41 })
din_channel-window_example =
    din_channel-window (4 ∷ 2 ∷ []) 4 5 true idle_input refl refl (in_window.0, (in_window.1, tt))
      in_window.0
