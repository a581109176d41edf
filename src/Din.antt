-- ===== src/Din.antt =====
-- firmware/app/src/Din.c: the debouncing of the six digital inputs, one round per millisecond. A
-- channel is its counter in `integ`, its bit of `stable` and its entry of `din.count`; `raw` is
-- whether the pin reads low.
pub mod Debounce
mod Tests
use drdro_mainboard.Base.{
  ℕ, zero, suc, ◌+◌, ◌*◌, Bool, true, false, ltb, leb, if◌then◌else◌, u8, u32, List, [], ◌∷◌,
}

pub record Channel : Type 0 where
  pub integ : ℕ
  pub active : Bool
  pub count : ℕ

unfoldable pub window_of : ℕ → ℕ
window_of debounce_ms =
    let low = if ltb debounce_ms 1 then 1 else debounce_ms in if ltb 250 low then 250 else low

abbrev pub same : Bool → Bool → Bool
same true true = true
same true false = false
same false true = false
same false false = true

-- One input in one round.
unfoldable pub din_channel : ℕ → Bool → Channel → Channel
din_channel window raw c =
    if same raw c.active
    then record c { integ = 0 }
    else if leb (u8 window) (u8 (c.integ + 1))
    then record { integ = 0; active = raw; count = if raw then u32 (c.count + 1) else c.count }
    else record c { integ = u8 (c.integ + 1) }

-- The loop over the inputs.
unfoldable pub din_channels : ℕ → List Bool → List Channel → List Channel
din_channels window [] cs = cs
din_channels window (raw ∷ pins) [] = []
din_channels window (raw ∷ pins) (c ∷ cs) = din_channel window raw c ∷ din_channels window pins cs

-- `din.state`: bit `i` is input `i`.
unfoldable pub din_state : List Channel → ℕ
din_state [] = 0
din_state (c ∷ cs) = (if c.active then 1 else 0) + 2 * din_state cs

-- One round of the task, with what `debounceMs` holds.
unfoldable pub din_round : ℕ → List Bool → List Channel → ℕ × List Channel
din_round debounce_ms pins cs =
    let cs' = din_channels (window_of debounce_ms) pins cs in (din_state cs', cs')
