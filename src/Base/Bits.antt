-- ===== src/Base/Bits.antt =====
-- When an inclusive or exclusive or of two numbers is zero.
use Prim.Native.Nat.{
  ℕ, zero, suc, ◌/◌, ◌%◌, ◌≤◌, max, bit_or, bit_xor, digits, differ, bit_or-bitwise,
  bit_xor-bitwise,
}
use mathlib.Core.Path.{◌≡◌, refl, sym, ap, ◌∙◌}
use native.Mathlib.Omega.{arith}

differ_zero : (x y : ℕ) → differ x y ≡ 0 → x ≡ y
differ_zero zero y e = omega (arith, e)
differ_zero (suc x) zero e = absurd (omega (arith, e))
differ_zero (suc x) (suc y) e = ap suc (differ_zero x y e)

differ_same : (x : ℕ) → differ x x ≡ 0
differ_same zero = refl
differ_same (suc x) = differ_same x

or_digits : (n a b : ℕ) → a ≤ n → digits (λ b. b) max n a b ≡ 0 → (a ≡ 0) × (b ≡ 0)
or_digits zero a b h e = (omega arith, e)
or_digits (suc n) zero b h e = (refl, e)
or_digits (suc n) (suc a) b h e =
    let rest = or_digits n (suc a / 2) (b / 2) (omega arith) (omega (arith, e)) in
    (omega (arith, e, rest.0), omega (arith, e, rest.1))

xor_digits : (n a b : ℕ) → a ≤ n → digits (λ b. b) differ n a b ≡ 0 → a ≡ b
xor_digits zero a b h e = omega (arith, e)
xor_digits (suc n) zero b h e = sym e
xor_digits (suc n) (suc a) b h e =
    let last = differ_zero (suc a % 2) (b % 2) (omega (arith, e)) in
    let rest = xor_digits n (suc a / 2) (b / 2) (omega arith) (omega (arith, e)) in
    omega (arith, last, rest)

xor_digits_same : (n a : ℕ) → a ≤ n → digits (λ b. b) differ n a a ≡ 0
xor_digits_same zero a h = omega arith
xor_digits_same (suc n) zero h = refl
xor_digits_same (suc n) (suc a) h =
    omega (arith, xor_digits_same n (suc a / 2) (omega arith), differ_same (suc a % 2))

pub bit_or-zero : (a b : ℕ) → bit_or a b ≡ 0 → (a ≡ 0) × (b ≡ 0)
bit_or-zero a b e = or_digits a a b (omega arith) (sym (λ i. bit_or-bitwise a b i) ∙ e)

pub bit_xor-zero : (a b : ℕ) → bit_xor a b ≡ 0 → a ≡ b
bit_xor-zero a b e = xor_digits a a b (omega arith) (sym (λ i. bit_xor-bitwise a b i) ∙ e)

pub bit_xor-same : (a : ℕ) → bit_xor a a ≡ 0
bit_xor-same a = (λ i. bit_xor-bitwise a a i) ∙ xor_digits_same a a (omega arith)
