-- ===== src/Serial/Tests.antt =====
-- Three bytes across the end of the ring, two of which are asked for.
use drdro_mainboard.Base.{ℕ, ◌≡◌, ◌==◌, if◌then◌else◌, refl, List, [], ◌∷◌, take, arith}
use drdro_mainboard.Serial.{rs485_rx_drain}
use drdro_mainboard.Serial.Ring.{place_after, rs485_rx_drain-Holds}

abbrev ring : ℕ → ℕ
ring k = if k == 510 then 7 else if k == 511 then 8 else if k == 0 then 9 else 0

abbrev received : List ℕ
received = 7 ∷ 8 ∷ 9 ∷ []

rs485_rx_drain-Holds_example :
    rs485_rx_drain 2 ring 511 510 ≡ (take 2 received, place_after 510 (take 2 received))
rs485_rx_drain-Holds_example =
    rs485_rx_drain-Holds ring 2 510 511 received (omega arith) (omega arith)
      (refl, (refl, (refl, tt))) (omega arith) refl
