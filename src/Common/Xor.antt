-- ===== src/Common/Xor.antt =====
-- Laws of the exclusive or at variables, from its recursion on binary digits.
use Prim.Native.Nat.{bit_xor, bit_xor-bitwise, digits, differ}
use mathlib.Core.Path.{ap₂}
use friscv_soc.Common.{
  ℕ, ◌-◌, ◌^◌, zero, suc, ◌+◌, ◌*◌, ◌/◌, ◌%◌, ◌≤◌, ◌<◌, ◌≡◌, refl, ap, ◌∙◌, arith,
}

-- The digits do not depend on the count, once it covers the first number.
xor_digits : ℕ → ℕ → ℕ → ℕ
xor_digits n a b = digits (λ d. d) differ n a b

xor_digits-count : (n k a b : ℕ) → a ≤ n → a ≤ k → xor_digits n a b ≡ xor_digits k a b
unfolding xor_digits
xor_digits-count zero zero a b p q = refl
xor_digits-count zero (suc k) zero b p q = refl
xor_digits-count zero (suc k) (suc a) b p q = absurd (omega arith)
xor_digits-count (suc n) zero zero b p q = refl
xor_digits-count (suc n) zero (suc a) b p q = absurd (omega arith)
xor_digits-count (suc n) (suc k) zero b p q = refl
xor_digits-count (suc n) (suc k) (suc a) b p q =
    ap (λ h. h * 2 + differ (suc a % 2) (b % 2))
      (xor_digits-count n k (suc a / 2) (b / 2) (omega arith) (omega arith))

zero-bit_xor : (b : ℕ) → bit_xor 0 b ≡ b
zero-bit_xor b = bit_xor-bitwise 0 b

zero-differ : (y : ℕ) → differ 0 y ≡ y
zero-differ y = refl

bit_xor_step : (a b : ℕ) → bit_xor a b ≡ bit_xor (a / 2) (b / 2) * 2 + differ (a % 2) (b % 2)
unfolding xor_digits
bit_xor_step zero b = omega (arith, zero-bit_xor b, zero-bit_xor (b / 2))
bit_xor_step (suc a) b = omega (
  arith,
  bit_xor-bitwise (suc a) b,
  bit_xor-bitwise (suc a / 2) (b / 2),
  xor_digits-count a (suc a / 2) (suc a / 2) (b / 2) (omega arith) (omega arith),
)

differ_self : (x : ℕ) → differ x x ≡ 0
differ_self zero = refl
differ_self (suc x) = differ_self x

differ-zero : (x : ℕ) → differ x 0 ≡ x
differ-zero zero = refl
differ-zero (suc x) = refl

bit_xor_self_below : (n a : ℕ) → a ≤ n → bit_xor a a ≡ 0
bit_xor_self_below zero zero h = refl
bit_xor_self_below zero (suc a) h = absurd (omega arith)
bit_xor_self_below (suc n) zero h = refl
bit_xor_self_below (suc n) (suc a) h = omega (
  arith,
  bit_xor_step (suc a) (suc a),
  differ_self (suc a % 2),
  bit_xor_self_below n (suc a / 2) (omega arith),
)

pub bit_xor_self : (a : ℕ) → bit_xor a a ≡ 0
bit_xor_self a = bit_xor_self_below a a (omega arith)

-- One digit further, where the second number has a zero digit.
pub bit_xor_double :
    (x y r v : ℕ) → r < 2 → bit_xor x y ≡ v → bit_xor (x * 2 + r) (y * 2) ≡ v * 2 + r
bit_xor_double x y r v h e =
    let e1 : (x * 2 + r) / 2 ≡ x = omega arith in
    let e2 : y * 2 / 2 ≡ y = omega arith in
    let e3 : (x * 2 + r) % 2 ≡ r = omega arith in
    let e4 : y * 2 % 2 ≡ 0 = omega arith in
    bit_xor_step (x * 2 + r) (y * 2) ∙ rw (e1, e2, e3, e4, e, differ-zero r)

-- The digits above the lowest `n` cancel: `digit k` is the digit at `k`.
with_digits : ℕ → (ℕ → ℕ) → ℕ → ℕ
with_digits zero digit x = x
with_digits (suc n) digit x = with_digits n digit x * 2 + digit n

doubled : ℕ → ℕ → ℕ
doubled zero y = y
doubled (suc n) y = doubled n y * 2

bit_xor-with_digits :
    (n : ℕ) (digit : ℕ → ℕ) (x y : ℕ)
    → ((k : ℕ) → digit k < 2)
    → bit_xor (with_digits n digit x) (doubled n y) ≡ with_digits n digit (bit_xor x y)
unfolding with_digits doubled
bit_xor-with_digits zero digit x y h = refl
bit_xor-with_digits (suc n) digit x y h =
    bit_xor_double (with_digits n digit x) (doubled n y) (digit n)
      (with_digits n digit (bit_xor x y)) (h n) (bit_xor-with_digits n digit x y h)

-- `x ^ (x & ~0xff)` is the low byte of `x`.
pub bit_xor_high : (x : ℕ) → bit_xor x (x / 256 * 256) ≡ x % 256
unfolding with_digits doubled
bit_xor_high x =
    let digit = λ (k : ℕ). x / 2 ^ (7 - k) % 2 in
    let e1 : x ≡ with_digits 8 digit (x / 256) = omega arith in
    let e2 : x / 256 * 256 ≡ doubled 8 (x / 256) = omega arith in
    ap₂ bit_xor e1 e2
    ∙ bit_xor-with_digits 8 digit (x / 256) (x / 256) (λ k. omega arith)
    ∙ rw (bit_xor_self (x / 256)) (omega arith)
