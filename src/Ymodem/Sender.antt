-- ===== src/Ymodem/Sender.antt =====
-- A sender that keeps to the protocol, and what the receiver makes of it on a part without a defect.
use drdro_mainboard.Base.{ℕ, suc, ◌+◌, ◌≡◌, u8, List, [], ◌∷◌, ◌++◌, length, replicate, All, IsByte}
use drdro_mainboard.Hal.{FlashHal, IsFlash, Works}
use drdro_mainboard.Flash.Works.{Prepared}
use drdro_mainboard.Ymodem.{Line, eot_byte, ym_ok, Transfer, Progress, ended}
use drdro_mainboard.Ymodem.Frame.{answers, frame, IsBlockLength}
use drdro_mainboard.Ymodem.Account.{Written}

abbrev pub joined : List (List ℕ) → List ℕ
joined [] = []
joined (p ∷ ps) = p ++ joined ps

-- The blocks from number `k + 1` on, then the end of the transfer and of the batch.
abbrev pub sent_from : ℕ → List (List ℕ) → Line
sent_from k [] = answers (eot_byte ∷ eot_byte ∷ []) ++ (answers (frame 0 (replicate 128 0)) ++ [])
sent_from k (p ∷ ps) = answers (frame (u8 (k + 1)) p) ++ sent_from (suc k) ps

-- A whole batch: the header block, the data blocks, the end.
abbrev pub batch : List ℕ → List (List ℕ) → Line
batch header ps = answers (frame 0 header) ++ sent_from 0 ps

-- Blocks of bytes, of the two lengths.
abbrev pub AreBlocks : List (List ℕ) → Type 0
AreBlocks [] = Unit
AreBlocks (p ∷ ps) = IsBlockLength (length p) × All IsByte p × AreBlocks ps

module _ {D : Type 0} (hal : FlashHal D) where
  -- The transfer has ended as YM_OK, with `body` written and nothing left on the line.
  abbrev pub Completed : ℕ → List ℕ → Progress D → Type 0
  Completed base body r =
      (t : Transfer D) × (r ≡ ended ym_ok t) × (t.line ≡ []) × Written hal base body t

module _ {D : Type 0} (hal : FlashHal D) (laws : IsFlash hal) (works : Works hal) where
  -- The session of the transfer is ready for the next block.
  abbrev Ready : Transfer D → Type 0
  Ready t = Prepared hal laws works t.written t.flash
