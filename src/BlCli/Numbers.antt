-- ===== src/BlCli/Numbers.antt =====
-- Hexadecimal and decimal numbers: what is printed is read back.
use drdro_mainboard.Base.{
  ℕ, zero, suc, ◌+◌, ◌-◌, ◌*◌, ◌/◌, ◌%◌, ◌^◌, ◌<◌, ◌≡◌, inl, inr, refl, ap, ap₂, ◌∙◌, Bool, true,
  false, Bool-cases, ◌&&◌, &&-split, ◌==◌, eq-of-==, u32, List, [], ◌∷◌, get_or, Option, some, none,
  arith,
}
use native.Mathlib.Nat.{pow-suc}
use drdro_mainboard.Ymodem.{is_digit, size_digits}
use drdro_mainboard.BlCli.Text.{
  codes, hex_digit, to_hex2, from_hex, hex_pair, parse_hex2, utoa_digits, reversed, utoa10,
}

-- A test that holds below a bound, checked by running it.
abbrev pub all_below : ℕ → (ℕ → Bool) → Bool
all_below zero f = true
all_below (suc n) f = f n && all_below n f

pub below : (n : ℕ) (f : ℕ → Bool) (k : ℕ) → all_below n f ≡ true → k < n → f k ≡ true
below zero f k h q = absurd (omega arith)
below (suc n) f k h q = elim (Bool-cases (k == n)) [
  | inl e ↦ ap f (eq-of-== k n e) ∙ (&&-split (f n) (all_below n f) h).0
  | inr e ↦ below n f k (&&-split (f n) (all_below n f) h).1 (ground (arith, e))
]

abbrev reads : Option ℕ → ℕ → Bool
reads none d = false
reads (some x) d = x == d

reads-some : (o : Option ℕ) (d : ℕ) → reads o d ≡ true → o ≡ some d
reads-some none d h = absurd (apart h)
  where
    apart : false ≡ true → ⊥
    apart p = cc
reads-some (some x) d h = ap some (eq-of-== x d h)

pub from_hex-hex_digit : (v : ℕ) → from_hex (hex_digit v) ≡ some (v % 16)
unfolding from_hex hex_digit
from_hex-hex_digit v = reads-some (from_hex (hex_digit v)) (v % 16) (
    below 16 (λ d. reads (from_hex (get_or (codes "0123456789ABCDEF") d 0)) d) (v % 16) refl
      (omega arith))

-- The two hexadecimal digits of a byte are read back as that byte.
pub parse_hex2-to_hex2 : (b : ℕ) → b < 256 → parse_hex2 (to_hex2 b) ≡ some b
unfolding parse_hex2 to_hex2
parse_hex2-to_hex2 b h =
    ap₂ hex_pair (from_hex-hex_digit (b / 16)) (from_hex-hex_digit b) ∙ ap some (omega arith)

digit_step :
    (v : ℕ) (out : List ℕ)
    → v < 2 ^ 32
    → size_digits (v / 10) ((b'0' + v % 10) ∷ out) ≡ size_digits v out
unfolding size_digits
digit_step v out h =
    rw
      (
        digit,
        ap (λ (w : ℕ). size_digits w out) {x = u32 (v / 10 * 10 + (b'0' + v % 10 - 0x30))} {y = v}
            (omega arith),
      )
      refl
  where
    digit : is_digit (b'0' + v % 10) ≡ true
    digit = ground arith

-- Reading the digits of `v`, and then what follows them.
digits_lem :
    (n v : ℕ) (out : List ℕ)
    → v < 10 ^ n
    → v < 2 ^ 32
    → size_digits 0 (reversed (utoa_digits n v) out) ≡ size_digits v out
unfolding utoa_digits
digits_lem zero v out h k = ap (λ (w : ℕ). size_digits w out) {x = 0} {y = v} (omega arith)
digits_lem (suc n) v out h k = elim (Bool-cases (v / 10 == 0)) [
  | inl e ↦ rw e (
      ap (λ (w : ℕ). size_digits w ((b'0' + v % 10) ∷ out)) {x = 0} {y = v / 10}
        (omega (arith, eq-of-== (v / 10) 0 e))
      ∙ digit_step v out k)
  | inr e ↦ rw e (
      digits_lem n (v / 10) ((b'0' + v % 10) ∷ out) (omega (arith, pow-suc 10 n)) (omega arith)
      ∙ digit_step v out k)
]

-- The decimal digits of a 32-bit word, as the command line prints them, are read back by the reader of
-- the YMODEM header as that word; the eleven bytes of the buffer are enough.
pub size_digits-utoa10 : (v : ℕ) → v < 2 ^ 32 → size_digits 0 (utoa10 v) ≡ v
unfolding utoa10 size_digits
size_digits-utoa10 v h = digits_lem 11 v [] (omega arith) h
