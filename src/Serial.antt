-- ===== src/Serial.antt =====
-- firmware/app/src/usart.c: the ring that the serial line is received into. The DMA controller writes
-- the ring and counts down what is left of it; both are arguments.
pub mod Ring
mod Tests
use drdro_mainboard.Base.{ℕ, zero, suc, ◌+◌, ◌-◌, ◌%◌, ◌==◌, if◌then◌else◌, u16, List, [], ◌∷◌}

abbrev pub rx_ring_size : ℕ
rx_ring_size = 512

-- The loop of `Rs485RxDrain` with the bytes left of the caller's buffer: what it copies, and
-- `sRxTail`.
unfoldable pub drain_loop : ℕ → (ℕ → ℕ) → ℕ → ℕ → List ℕ × ℕ
drain_loop zero ring head tail = ([], tail)
drain_loop (suc n) ring head tail =
    let (out, t) = drain_loop n ring head (u16 ((tail + 1) % rx_ring_size)) in
    if tail == head then ([], tail) else (ring tail ∷ out, t)

unfoldable pub rs485_rx_drain : ℕ → (ℕ → ℕ) → ℕ → ℕ → List ℕ × ℕ
rs485_rx_drain max ring counter tail = drain_loop max ring (u16 (rx_ring_size - counter)) tail
