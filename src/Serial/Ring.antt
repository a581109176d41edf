-- ===== src/Serial/Ring.antt =====
-- What is drained is what has been received, in its order.
use drdro_mainboard.Base.{
  ℕ, zero, suc, ◌+◌, ◌-◌, ◌%◌, ◌<◌, ◌≤◌, ◌≡◌, ap, ap₂, ◌∙◌, false, true, ◌==◌, u16, List, [], ◌∷◌,
  length, take, arith,
}
use drdro_mainboard.Serial.{rx_ring_size, drain_loop, rs485_rx_drain}

-- The ring holds these bytes from the place `t` on, across its end.
abbrev pub Holds : (ℕ → ℕ) → ℕ → List ℕ → Type 0
Holds ring t [] = Unit
Holds ring t (b ∷ s) = (ring t ≡ b) × Holds ring ((t + 1) % rx_ring_size) s

-- The place after them.
abbrev pub place_after : ℕ → List ℕ → ℕ
place_after t s = (t + length s) % rx_ring_size

module _ (ring : ℕ → ℕ) where
  drain_loop_lem :
      (n t : ℕ) (s : List ℕ)
      → t < rx_ring_size
      → length s < rx_ring_size
      → Holds ring t s
      → drain_loop n ring (place_after t s) t ≡ (take n s, place_after t (take n s))
  unfolding drain_loop
  drain_loop_lem zero t s low short h =
      ap (λ (k : ℕ). ([], k)) {x = t} {y = place_after t []} (omega arith)
  drain_loop_lem (suc n) t [] low short h =
      rw here (ap (λ (k : ℕ). ([], k)) {x = t} {y = place_after t []} (omega arith))
    where
      here : (t == place_after t []) ≡ true
      here = ground arith
  drain_loop_lem (suc n) t (b ∷ s) low short h = rw further (
      ap₂ (λ (x : ℕ) (q : List ℕ × ℕ). (x ∷ q.0, q.1)) h.0
        (ap₂ (λ (head tail : ℕ). drain_loop n ring head tail) {x = place_after t (b ∷ s)}
            {y = place_after next s} {u = u16 next} {v = next} (omega arith) (omega arith)
          ∙ drain_loop_lem n next s (omega arith) (omega (arith, short)) h.1
          ∙ ap (λ (k : ℕ). (take n s, k)) {x = place_after next (take n s)}
              {y = place_after t (b ∷ take n s)} (omega arith)))
    where
      next : ℕ
      next = (t + 1) % rx_ring_size

      further : (t == place_after t (b ∷ s)) ≡ false
      further = ground (arith, low, short)

  -- Where the ring holds bytes from the place that is read next on, fewer than its size, and the
  -- counter of the controller stands after them, a drain copies the first of them, as many as the
  -- caller has room for and in their order, and the next place is that after them.
  pub rs485_rx_drain-Holds :
      (max t counter : ℕ) (s : List ℕ)
      → t < rx_ring_size
      → length s < rx_ring_size
      → Holds ring t s
      → counter ≤ rx_ring_size
      → rx_ring_size - counter ≡ place_after t s
      → rs485_rx_drain max ring counter t ≡ (take max s, place_after t (take max s))
  unfolding rs485_rx_drain
  rs485_rx_drain-Holds max t counter s low short h c e =
      ap (λ (head : ℕ). drain_loop max ring head t) {x = u16 (rx_ring_size - counter)}
        {y = place_after t s} (omega arith)
      ∙ drain_loop_lem max t s low short h
