-- ===== src/Protocol/Address.antt =====
-- An address that is printed is read back.
use drdro_mainboard.Base.{
  ℕ, suc, ◌+◌, ◌-◌, ◌*◌, ◌<◌, ◌≡◌, refl, sym, ap, ◌∙◌, Bool, true, false, ◌&&◌, &&-split, ltb, ◌==◌,
  eq-of-==, if◌then◌else◌, Bytes, IsByte, List, [], ◌∷◌, ◌++◌, append-nil, Option, some, none,
}
use drdro_mainboard.BlCli.Text.{utoa10, utoa_digits}
use drdro_mainboard.BlCli.Numbers.{below}
use drdro_mainboard.Protocol.Values.{
  is_digit, octet_digits, octet, parse_octets, parse_ip4, format_ip4,
}

abbrev ends_as : Option (ℕ × List ℕ) → ℕ → Bool
ends_as none w = false
ends_as (some (x, [])) w = x == w
ends_as (some (x, b ∷ s)) w = false

abbrev starts : List ℕ → Bool
starts [] = false
starts (b ∷ s) = is_digit b

apart : false ≡ true → ⊥
apart e = cc

-- One byte: it was a digit of a number that is not too big.
step :
    (digit big : Bool) (r r' : Option (ℕ × List ℕ)) (v w b : ℕ) (l l' t : List ℕ)
    → ends_as (if digit then (if big then none else r) else some (v, b ∷ l)) w ≡ true
    → (ends_as r w ≡ true → r' ≡ some (w, t))
    → (if digit then (if big then none else r') else some (v, b ∷ l')) ≡ some (w, t)
step true true r r' v w b l l' t h k = absurd (apart h)
step true false r r' v w b l l' t h k = k h
step false big r r' v w b l l' t h k = absurd (apart h)

digits_then :
    (ds t : List ℕ) (v w : ℕ)
    → ends_as (octet_digits v ds) w ≡ true
    → starts t ≡ false
    → octet_digits v (ds ++ t) ≡ some (w, t)
unfolding octet_digits
digits_then [] [] v w h e = ap (λ (x : ℕ). some (x, [])) (eq-of-== v w h)
digits_then [] (b ∷ t) v w h e = rw e (ap (λ (x : ℕ). some (x, b ∷ t)) (eq-of-== v w h))
digits_then (b ∷ ds) t v w h e =
    let v' = v * 10 + (b - b'0') in
    step (is_digit b) (ltb 255 v') (octet_digits v' ds) (octet_digits v' (ds ++ t)) v w b ds
      (ds ++ t) t h (λ k. digits_then ds t v' w k e)

octet-starts : (ds t : List ℕ) → starts ds ≡ true → octet (ds ++ t) ≡ octet_digits 0 (ds ++ t)
unfolding octet
octet-starts [] t h = absurd (apart h)
octet-starts (b ∷ ds) t h = rw h refl

-- Every byte, by running the reader on its digits.
digits_read :
    (v : ℕ) → v < 256 → (starts (utoa10 v) && ends_as (octet_digits 0 (utoa10 v)) v) ≡ true
unfolding octet_digits utoa10 utoa_digits
digits_read v h =
    below 256 (λ w. starts (utoa10 w) && ends_as (octet_digits 0 (utoa10 w)) w) v refl h

octet-utoa10 :
    (v : ℕ) (t : List ℕ) → v < 256 → starts t ≡ false → octet (utoa10 v ++ t) ≡ some (v, t)
octet-utoa10 v t h e =
    let (first, digits) =
      &&-split (starts (utoa10 v)) (ends_as (octet_digits 0 (utoa10 v)) v) (digits_read v h) in
    octet-starts (utoa10 v) t first ∙ digits_then (utoa10 v) t 0 v digits e

last_number : (v : ℕ) → v < 256 → parse_octets 1 (utoa10 v ++ []) ≡ some (v ∷ [])
unfolding parse_octets
last_number v h = rw (octet-utoa10 v [] h refl) refl

next_number :
    (n v : ℕ) (t vs : List ℕ)
    → v < 256
    → parse_octets (suc n) t ≡ some vs
    → parse_octets (suc (suc n)) (utoa10 v ++ b'.' ∷ t) ≡ some (v ∷ vs)
unfolding parse_octets
next_number n v t vs h e = rw (octet-utoa10 v (b'.' ∷ t) h refl) (rw e refl)

-- An address of four bytes, as it is printed, is read back as these four.
pub parse_ip4-format_ip4 :
    (r : Bytes) (p : ℕ)
    → ((i : ℕ) → IsByte (r i))
    → parse_ip4 (format_ip4 r p) ≡ some (r p ∷ r (p + 1) ∷ r (p + 2) ∷ r (p + 3) ∷ [])
unfolding parse_ip4 format_ip4
parse_ip4-format_ip4 r p h =
    ap
      (λ (l : List ℕ).
        parse_octets 4
          (utoa10 (r p) ++ b'.' ∷ (utoa10 (r (p + 1)) ++ b'.' ∷ (utoa10 (r (p + 2)) ++ b'.' ∷ l))))
      (sym (append-nil (utoa10 (r (p + 3)))))
    ∙ next_number 2 (r p) _ _ (h p) (
        next_number 1 (r (p + 1)) _ _ (h (p + 1))
          (next_number 0 (r (p + 2)) _ _ (h (p + 2)) (last_number (r (p + 3)) (h (p + 3)))))
