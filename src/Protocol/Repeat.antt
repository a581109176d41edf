-- ===== src/Protocol/Repeat.antt =====
-- The checksum of a line, and the empty line, which repeats the last command.
use drdro_mainboard.Base.{
  ℕ, zero, suc, ◌≤◌, ◌<◌, ◌≡◌, ◌≢◌, inl, inr, refl, sym, ap, ◌∙◌, false, Bool-cases, ◌==◌, eq-of-==,
  List, [], ◌∷◌, ◌++◌, length, take, All, Option, some, none, arith,
}
use drdro_mainboard.BlCli.Text.{codes, to_hex2, cksum, resp_err, resp_end}
use drdro_mainboard.BlCli.Process.{split_star, words}
use drdro_mainboard.BlCli.Numbers.{parse_hex2-to_hex2}
use drdro_mainboard.BlCli.Checksum.{
  IsText, with_checksum, c_string-text, hex2-no_star, split_star-last, cksum-lt, cksum_one_byte,
}
use drdro_mainboard.Protocol.{protocol_line_max}
use drdro_mainboard.Protocol.App.{App, Outside, say}
use drdro_mainboard.Protocol.Process.{
  run_body, run_new, with_sum, with_star, run_last, run_text, begin_response, protocol_process_line,
}
use drdro_mainboard.Protocol.Answer.{run_argv-Behaves}

take-all : (n : ℕ) (s : List ℕ) → length s ≤ n → take n s ≡ s
take-all zero [] h = refl
take-all zero (b ∷ s) h = absurd (omega (arith, h))
take-all (suc n) [] h = refl
take-all (suc n) (b ∷ s) h = ap (◌∷◌ b) (take-all n s (omega (arith, h)))

-- A line of text that is not empty and not too long.
abbrev pub IsLine : List ℕ → Type 0
IsLine [] = ⊥
IsLine (b ∷ s) = All IsText (b ∷ s) × (length s < protocol_line_max)

module _ {D B : Type 0} (o : Outside D B) where
  text_run :
      (s : List ℕ) (c : App D B)
      → IsLine s
      → protocol_process_line o s c ≡ with_star o s (split_star s) (begin_response o c)
  unfolding protocol_process_line
  text_run [] c h = absurd h
  text_run (b ∷ s) c h =
      ap (λ (l : List ℕ). run_text o l (begin_response o c)) (c_string-text (b ∷ s) h.0)
      ∙ ap (λ (w : List ℕ). with_star o w (split_star w) (begin_response o c))
          (take-all 128 (b ∷ s) (omega (arith, h.1)))

  plain_run :
      (s : List ℕ) (c : App D B)
      → IsLine s
      → split_star s ≡ none
      → protocol_process_line o s c ≡ run_new o s (begin_response o c)
  plain_run s c h e =
      text_run s c h ∙ ap (λ (w : Option (List ℕ × List ℕ)). with_star o s w (begin_response o c)) e

  last_of_run : (s : List ℕ) (c : App D B) → (run_new o s (begin_response o c)).last ≡ s
  unfolding run_new
  last_of_run s c =
      (run_argv-Behaves o (take 8 (words s)) (record (begin_response o c) { last = s })).last_kept

  empty_run :
      (s : List ℕ) (d : App D B)
      → IsLine s
      → d.last ≡ s
      → protocol_process_line o [] d ≡ run_new o s (begin_response o d)
  unfolding protocol_process_line run_new run_last
  empty_run [] d h e = absurd h
  empty_run (b ∷ s) d h e =
      ap (λ (l : List ℕ). run_last o l (begin_response o d)) e
      ∙ ap (λ (l : List ℕ). run_body o (b ∷ s) (record (begin_response o d) { last = l })) e

  -- An empty line does what the line before it did: after a line of text of 1 to 128 bytes without a
  -- checksum, an empty line has exactly the effect of sending that line again.
  pub protocol_process_line-repeat :
      (s : List ℕ) (c : App D B)
      → IsLine s
      → split_star s ≡ none
      → let d = protocol_process_line o s c in
        protocol_process_line o [] d ≡ protocol_process_line o s d
  protocol_process_line-repeat s c h e =
      let d = protocol_process_line o s c in
      empty_run s d h (ap (λ (q : App D B). q.last) (plain_run s c h e) ∙ last_of_run s c)
      ∙ sym (plain_run s d h e)

  starred :
      (s : List ℕ) (sum : ℕ) (c : App D B)
      → IsLine (with_checksum s sum)
      → sum < 256
      → protocol_process_line o (with_checksum s sum) c
        ≡ with_sum o s (some sum) (begin_response o c)
  starred s sum c h low =
      text_run (with_checksum s sum) c h
      ∙ ap
          (λ (w : Option (List ℕ × List ℕ)).
            with_star o (with_checksum s sum) w (begin_response o c))
          (split_star-last s (to_hex2 sum) (hex2-no_star sum))
      ∙ ap (λ (w : Option ℕ). with_sum o s w (begin_response o c)) (parse_hex2-to_hex2 sum low)

  -- A line of text with its checksum, which together are at most 128 bytes, one byte of which before the
  -- star is replaced by another that is not NUL, runs no command: the answer is the error `bad checksum`,
  -- and but for the answer and the action, which is none, all is as it was, the line that an empty line
  -- repeats included.
  pub protocol_process_line-damaged :
      (p q : List ℕ) (a b : ℕ) (c : App D B)
      → All IsText (p ++ a ∷ q)
      → IsLine (with_checksum (p ++ b ∷ q) (cksum (p ++ a ∷ q)))
      → a ≢ b
      → protocol_process_line o (with_checksum (p ++ b ∷ q) (cksum (p ++ a ∷ q))) c
        ≡ say (λ r. resp_end (resp_err (codes "bad checksum") r)) (begin_response o c)
  protocol_process_line-damaged p q a b c h k other =
      starred (p ++ b ∷ q) (cksum (p ++ a ∷ q)) c k (cksum-lt (p ++ a ∷ q) h) ∙ (rw wrong refl)
    where
      wrong : (cksum (p ++ b ∷ q) == cksum (p ++ a ∷ q)) ≡ false
      wrong = elim (Bool-cases (cksum (p ++ b ∷ q) == cksum (p ++ a ∷ q))) [
        | inl e ↦ absurd (
            other
              (sym (cksum_one_byte p q b a (eq-of-== (cksum (p ++ b ∷ q)) (cksum (p ++ a ∷ q)) e))))
        | inr e ↦ e
      ]
