-- ===== src/BlCli/Checksum.antt =====
-- The checksum of a request: a line that carries its own is run, a line with a damaged byte is not.
use drdro_mainboard.Base.{
  ℕ, ◌+◌, ◌/◌, ◌%◌, ◌<◌, ◌≡◌, ◌≢◌, inl, inr, refl, ap, ◌∙◌, sym, bit_xor, Bool, true, false, not,
  Bool-cases, ◌==◌, ==-of-eq, eq-of-==, ltb, List, [], ◌∷◌, ◌++◌, get_or, All, All-append, IsByte,
  Option, some, none, arith,
}
use drdro_mainboard.Base.Bits.{bit_xor-lt, bit_xor_cancel, bit_xor_cancel_left}
use drdro_mainboard.Hal.{FlashHal}
use drdro_mainboard.BlCli.Text.{
  codes, to_hex2, cksum_from, cksum, hex_digit, resp_begin, resp_err, resp_end,
}
use drdro_mainboard.BlCli.Commands.{Cli, answered, say}
use drdro_mainboard.BlCli.Process.{
  split_star, c_string, ended_with, run_line, with_sum, with_star, checked_line, process_line,
}
use drdro_mainboard.BlCli.Framing.{cksum_from-append}
use drdro_mainboard.BlCli.Numbers.{below, parse_hex2-to_hex2}

-- A byte of a C string.
abbrev pub IsText : ℕ → Type 0
IsText b = (b ≢ 0) × IsByte b

pub c_string-text : (s : List ℕ) → All IsText s → c_string s ≡ s
c_string-text [] h = refl
c_string-text (b ∷ s) h = rw other (ap (◌∷◌ b) (c_string-text s h.1))
  where
    other : (b == 0) ≡ false
    other = ground (arith, h.0.0)

-- A digit is neither NUL nor a star.
digit-plain :
    (v : ℕ) → ((hex_digit v == 0) ≡ false) × ((hex_digit v == b'*') ≡ false) × (hex_digit v < 256)
unfolding hex_digit
digit-plain v = (
  no (get_or digits (v % 16) 0 == 0)
      (below 16 (λ d. not (get_or digits d 0 == 0)) (v % 16) refl (omega arith)),
  no (get_or digits (v % 16) 0 == b'*')
      (below 16 (λ d. not (get_or digits d 0 == b'*')) (v % 16) refl (omega arith)),
  ground (arith, below 16 (λ d. ltb (get_or digits d 0) 256) (v % 16) refl (omega arith)),
)
  where
    digits : List ℕ
    digits = codes "0123456789ABCDEF"

    no : (b : Bool) → not b ≡ true → b ≡ false
    no b h = ground arith

pub hex2-IsText : (b : ℕ) → All IsText (to_hex2 b)
unfolding to_hex2
hex2-IsText b = (
  (ground (arith, digit-plain (b / 16)), (digit-plain (b / 16)).2),
  ((ground (arith, digit-plain b), (digit-plain b).2), tt),
)

no_star :
    (b : ℕ) (s : List ℕ) → split_star s ≡ none → (b == b'*') ≡ false → split_star (b ∷ s) ≡ none
unfolding split_star
no_star b s h e = rw h (rw e refl)

pub hex2-no_star : (b : ℕ) → split_star (to_hex2 b) ≡ none
unfolding split_star to_hex2
hex2-no_star b =
    no_star (hex_digit (b / 16)) (hex_digit b ∷ [])
      (no_star (hex_digit b) [] refl (digit-plain b).1) (digit-plain (b / 16)).1

-- The last star is the one with none after it.
pub split_star-last :
    (s t : List ℕ) → split_star t ≡ none → split_star (s ++ b'*' ∷ t) ≡ some (s, t)
unfolding split_star
split_star-last [] t h = rw h refl
split_star-last (b ∷ s) t h = rw (split_star-last s t h) refl

cksum_from-lt : (c : ℕ) (s : List ℕ) → IsByte c → All IsText s → cksum_from c s < 256
unfolding cksum_from
cksum_from-lt c [] h k = h
cksum_from-lt c (b ∷ s) h k = cksum_from-lt (bit_xor c b) s (bit_xor-lt 8 c b h k.0.1) k.1

pub cksum-lt : (s : List ℕ) → All IsText s → cksum s < 256
unfolding cksum
cksum-lt s h = cksum_from-lt 0 s (omega arith) h

cksum_from-cancel : (q : List ℕ) (c c' : ℕ) → cksum_from c q ≡ cksum_from c' q → c ≡ c'
unfolding cksum_from
cksum_from-cancel [] c c' e = e
cksum_from-cancel (b ∷ q) c c' e =
    bit_xor_cancel (c + c') c c' b (omega arith) (omega arith)
      (cksum_from-cancel q (bit_xor c b) (bit_xor c' b) e)

-- The checksum tells any two lines apart that differ in one byte.
pub cksum_one_byte : (p q : List ℕ) (a b : ℕ) → cksum (p ++ a ∷ q) ≡ cksum (p ++ b ∷ q) → a ≡ b
unfolding cksum cksum_from
cksum_one_byte p q a b e = bit_xor_cancel_left (cksum_from 0 p) a b (
    cksum_from-cancel q (bit_xor (cksum_from 0 p) a) (bit_xor (cksum_from 0 p) b)
      (sym (cksum_from-append 0 p (a ∷ q)) ∙ e ∙ cksum_from-append 0 p (b ∷ q)))

-- A line that is followed by a star and a byte in hexadecimal.
abbrev pub with_checksum : List ℕ → ℕ → List ℕ
with_checksum s sum = s ++ b'*' ∷ to_hex2 sum

module _ {D : Type 0} (hal : FlashHal D) (bl_version : List ℕ) (rounds : ℕ) where
  starred :
      (s : List ℕ) (sum : ℕ) (c : Cli D)
      → All IsText s
      → sum < 256
      → process_line hal bl_version rounds (with_checksum s sum) c
        ≡ ended_with hal bl_version rounds
            (with_sum hal bl_version rounds s (some sum) (say resp_begin c))
  unfolding process_line checked_line
  starred s sum c h low =
      ap
        (λ (l : List ℕ).
          ended_with hal bl_version rounds
            (with_star hal bl_version rounds l (split_star l) (say resp_begin c)))
        (c_string-text (with_checksum s sum) (
          All-append IsText s (b'*' ∷ to_hex2 sum) h
            ((λ e. omega (arith, e), omega arith), hex2-IsText sum)))
      ∙ ap
          (λ (o : Option (List ℕ × List ℕ)).
            ended_with hal bl_version rounds
              (with_star hal bl_version rounds (with_checksum s sum) o (say resp_begin c)))
          (split_star-last s (to_hex2 sum) (hex2-no_star sum))
      ∙ ap
          (λ (o : Option ℕ).
            ended_with hal bl_version rounds
              (with_sum hal bl_version rounds s o (say resp_begin c)))
          (parse_hex2-to_hex2 sum low)

  -- A line of text with its own checksum behind a star is run as the line before the star.
  pub process_line-checksum :
      (s : List ℕ) (c : Cli D)
      → All IsText s
      → process_line hal bl_version rounds (with_checksum s (cksum s)) c
        ≡ ended_with hal bl_version rounds (run_line hal bl_version rounds s (say resp_begin c))
  process_line-checksum s c h =
      starred s (cksum s) c h (cksum-lt s h) ∙ (rw (==-of-eq (cksum s) (cksum s) refl) refl)

  -- A line with a checksum, one byte of which before the star is replaced by another that is not NUL,
  -- runs no command: the answer is the error `bad checksum` and the board stays as it is.
  pub process_line-damaged :
      (p q : List ℕ) (a b : ℕ) (c : Cli D)
      → All IsText (p ++ a ∷ q)
      → All IsText (p ++ b ∷ q)
      → a ≢ b
      → process_line hal bl_version rounds (with_checksum (p ++ b ∷ q) (cksum (p ++ a ∷ q))) c
        ≡ answered (say (λ r. resp_end (resp_err (codes "bad checksum") (resp_begin r))) c)
  process_line-damaged p q a b c h k other =
      starred (p ++ b ∷ q) (cksum (p ++ a ∷ q)) c k (cksum-lt (p ++ a ∷ q) h) ∙ (rw wrong refl)
    where
      wrong : (cksum (p ++ b ∷ q) == cksum (p ++ a ∷ q)) ≡ false
      wrong = elim (Bool-cases (cksum (p ++ b ∷ q) == cksum (p ++ a ∷ q))) [
        | inl e ↦ absurd (
            other
              (sym (cksum_one_byte p q b a (eq-of-== (cksum (p ++ b ∷ q)) (cksum (p ++ a ∷ q)) e))))
        | inr e ↦ e
      ]
