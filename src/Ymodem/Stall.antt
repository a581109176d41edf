-- ===== src/Ymodem/Stall.antt =====
-- A sender that goes silent after the handshake.
use drdro_mainboard.Base.{ℕ, zero, suc, ◌≡◌, refl, ap, ◌∙◌, []}
use drdro_mainboard.Hal.{FlashHal}
use drdro_mainboard.Ymodem.{
  Line, bad, recv_packet, nak, Transfer, going, tx, next_packet, ym_round, ym_rounds,
}

module _ {D : Type 0} (hal : FlashHal D) where
  silent_round :
      (t : Transfer D)
      → t.line ≡ []
      → ym_round hal bad t ≡ going bad (record (tx nak t) { line = [] })
  unfolding ym_round next_packet recv_packet
  silent_round t e =
      ap (λ (l : Line). going (recv_packet l).0 (record (tx nak t) { line = (recv_packet l).1 })) e

  -- Once the line is silent and no packet is at hand, the receiver never ends the transfer: after any
  -- number of rounds it is still going, without a packet, and nothing of the flash has changed.
  pub ym_rounds-stalled :
      (n : ℕ) (t : Transfer D)
      → t.line ≡ []
      → (t' : Transfer D) × (ym_rounds hal n (going bad t) ≡ going bad t')
        × (t'.line ≡ [])
        × (t'.flash ≡ t.flash)
  unfolding ym_rounds
  ym_rounds-stalled zero t e = (t, refl, e, refl)
  ym_rounds-stalled (suc n) t e =
      let t1 : Transfer D = record (tx nak t) { line = [] } in
      let (t', same, silent, kept) = ym_rounds-stalled n t1 refl in
      (t', ap (ym_rounds hal n) (silent_round t e) ∙ same, silent, kept)
