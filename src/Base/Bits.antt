-- ===== src/Base/Bits.antt =====
-- Exclusive or at every width, from the native operation's digit recursion.
use Prim.Native.Nat.{
  ℕ, zero, suc, ◌+◌, ◌*◌, ◌/◌, ◌%◌, ◌≤◌, ◌<◌, ◌^◌, bit_xor, digits, differ, bit_xor-bitwise,
}
use mathlib.Core.Path.{◌≡◌, refl, ap}
use native.Mathlib.Nat.{pow-suc}
use native.Mathlib.Omega.{arith}

abbrev xor_digits : ℕ → ℕ → ℕ → ℕ
xor_digits n a b = digits (λ b. b) differ n a b

xor_digits_fuel : (n m a b : ℕ) → a ≤ n → a ≤ m → xor_digits n a b ≡ xor_digits m a b
xor_digits_fuel zero zero a b p q = refl
xor_digits_fuel zero (suc m) zero b p q = refl
xor_digits_fuel zero (suc m) (suc a) b p q = absurd (omega arith)
xor_digits_fuel (suc n) zero zero b p q = refl
xor_digits_fuel (suc n) zero (suc a) b p q = absurd (omega arith)
xor_digits_fuel (suc n) (suc m) zero b p q = refl
xor_digits_fuel (suc n) (suc m) (suc a) b p q =
    omega (arith, xor_digits_fuel n m (suc a / 2) (b / 2) (omega arith) (omega arith))

zero-bit_xor : (b : ℕ) → bit_xor 0 b ≡ b
zero-bit_xor b = bit_xor-bitwise 0 b

-- One binary digit.
differ_lem : (a b : ℕ) → a < 2 → b < 2 → differ a b ≡ (a + b) % 2
differ_lem zero b p q = omega arith
differ_lem (suc zero) zero p q = refl
differ_lem (suc zero) (suc zero) p q = refl
differ_lem (suc zero) (suc (suc b)) p q = absurd (omega arith)
differ_lem (suc (suc a)) b p q = absurd (omega arith)

-- The lowest digit, and the rest.
pub bit_xor_step : (a b : ℕ) → bit_xor a b ≡ bit_xor (a / 2) (b / 2) * 2 + (a + b) % 2
bit_xor_step zero b = omega (arith, zero-bit_xor b, zero-bit_xor (b / 2))
bit_xor_step (suc a) b = omega (
  arith,
  bit_xor-bitwise (suc a) b,
  bit_xor-bitwise (suc a / 2) (b / 2),
  xor_digits_fuel a (suc a / 2) (suc a / 2) (b / 2) (omega arith) (omega arith),
  differ_lem (suc a % 2) (b % 2) (omega arith) (omega arith),
)

-- Exclusive or with a fixed value loses nothing.
pub bit_xor_cancel : (n a b p : ℕ) → a ≤ n → b ≤ n → bit_xor a p ≡ bit_xor b p → a ≡ b
bit_xor_cancel zero a b p h k e = omega arith
bit_xor_cancel (suc n) a b p h k e = omega (
  arith,
  bit_xor_step a p,
  bit_xor_step b p,
  bit_xor_cancel n (a / 2) (b / 2) (p / 2) (omega arith) (omega arith)
      (omega (arith, bit_xor_step a p, bit_xor_step b p)),
)

bit_xor-zero_fuel : (n a : ℕ) → a ≤ n → bit_xor a 0 ≡ a
bit_xor-zero_fuel n zero h = refl
bit_xor-zero_fuel zero (suc a) h = absurd (omega arith)
bit_xor-zero_fuel (suc n) (suc a) h =
    omega (arith, bit_xor_step (suc a) 0, bit_xor-zero_fuel n (suc a / 2) (omega arith))

bit_xor_cancel_left_fuel : (n p a b : ℕ) → p ≤ n → bit_xor p a ≡ bit_xor p b → a ≡ b
bit_xor_cancel_left_fuel n zero a b h e = omega (arith, zero-bit_xor a, zero-bit_xor b)
bit_xor_cancel_left_fuel zero (suc p) a b h e = absurd (omega arith)
bit_xor_cancel_left_fuel (suc n) (suc p) a b h e = omega (
  arith,
  bit_xor_step (suc p) a,
  bit_xor_step (suc p) b,
  bit_xor_cancel_left_fuel n (suc p / 2) (a / 2) (b / 2) (omega arith)
      (omega (arith, bit_xor_step (suc p) a, bit_xor_step (suc p) b)),
)

-- Two words of `k` bits give a word of `k` bits.
pub bit_xor-lt : (k a b : ℕ) → a < 2 ^ k → b < 2 ^ k → bit_xor a b < 2 ^ k
bit_xor-lt zero zero zero h q = omega (arith, zero-bit_xor 0)
bit_xor-lt zero zero (suc b) h q = absurd (omega arith)
bit_xor-lt zero (suc a) b h q = absurd (omega arith)
bit_xor-lt (suc k) a b h q = omega (
  arith,
  pow-suc 2 k,
  bit_xor_step a b,
  bit_xor-lt k (a / 2) (b / 2) (omega (arith, pow-suc 2 k)) (omega (arith, pow-suc 2 k)),
)

-- A top bit of one word stays if the other has none.
pub le-bit_xor : (k a b : ℕ) → a < 2 ^ k → 2 ^ k ≤ b → b < 2 ^ suc k → 2 ^ k ≤ bit_xor a b
le-bit_xor zero zero b h q r = omega (arith, zero-bit_xor b)
le-bit_xor zero (suc a) b h q r = absurd (omega arith)
le-bit_xor (suc k) a b h q r = omega (
  arith,
  pow-suc 2 k,
  bit_xor_step a b,
  le-bit_xor k (a / 2) (b / 2) (omega (arith, pow-suc 2 k)) (omega (arith, pow-suc 2 k))
      (omega (arith, pow-suc 2 k, pow-suc 2 (suc k))),
)

pub bit_xor-zero : (a : ℕ) → bit_xor a 0 ≡ a
bit_xor-zero a = bit_xor-zero_fuel a a (omega arith)

pub bit_xor_cancel_left : (p a b : ℕ) → bit_xor p a ≡ bit_xor p b → a ≡ b
bit_xor_cancel_left p a b e = bit_xor_cancel_left_fuel p p a b (omega arith) e

bit_xor_involutive_fuel : (n a b : ℕ) → a ≤ n → bit_xor a (bit_xor a b) ≡ b
bit_xor_involutive_fuel zero zero b h = omega (arith, zero-bit_xor (bit_xor 0 b), zero-bit_xor b)
bit_xor_involutive_fuel zero (suc a) b h = absurd (omega arith)
bit_xor_involutive_fuel (suc n) a b h = omega (
  arith,
  bit_xor_step a b,
  bit_xor_step a (bit_xor a b),
  ap (bit_xor (a / 2)) {x = bit_xor a b / 2} {y = bit_xor (a / 2) (b / 2)}
      (omega (arith, bit_xor_step a b)),
  bit_xor_involutive_fuel n (a / 2) (b / 2) (omega arith),
)

pub bit_xor_involutive : (a b : ℕ) → bit_xor a (bit_xor a b) ≡ b
bit_xor_involutive a b = bit_xor_involutive_fuel a a b (omega arith)
