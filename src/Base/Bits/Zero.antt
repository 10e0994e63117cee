-- ===== src/Base/Bits/Zero.antt =====
-- When `|` and `^` give 0, and `& 1` and `^ 1` on the numbers of siblings.
use Prim.Native.Nat.{
  ℕ, zero, suc, max, differ, bit_or, bit_and, bit_xor, bit_or-bitwise, ◌+◌, ◌-◌, ◌*◌, ◌/◌, ◌%◌, ◌≤◌,
}
use mathlib.Core.Path.{◌≡◌, refl, sym, ap, ◌∙◌}
use native.Mathlib.Omega.{arith}
use oram.Base.Tests.{◌==◌, if◌then◌else◌}
use oram.Base.Bits.{split_low, xor_low, bit_and-mask, bit_xor-zero, bit_xor_twice}

or_low : (x y : ℕ) → bit_or x y ≡ bit_or (x / 2) (y / 2) * 2 + max (x % 2) (y % 2)
or_low zero y = simp bit_or-bitwise (omega arith)
or_low (suc x) y = simp bit_or-bitwise (split_low (λ b. b) max x y)

pub zero-bit_or : (y : ℕ) → bit_or 0 y ≡ y
zero-bit_or y = bit_or-bitwise 0 y

or_zero_below : (n x y : ℕ) → x ≤ n → bit_or x y ≡ 0 → (x ≡ 0) × (y ≡ 0)
or_zero_below n zero y h e = (refl, sym (zero-bit_or y) ∙ e)
or_zero_below zero (suc x) y h e = absurd (omega arith)
or_zero_below (suc n) (suc x) y h e =
    let low : bit_or (suc x) y ≡ bit_or (suc x / 2) (y / 2) * 2 + max (suc x % 2) (y % 2) =
      or_low (suc x) y in
    let (a, b) = or_zero_below n (suc x / 2) (y / 2) (omega arith) (omega (arith, low, e)) in
    (omega (arith, low, e, a), omega (arith, low, e, b))

pub bit_or_zero : (x y : ℕ) → bit_or x y ≡ 0 → (x ≡ 0) × (y ≡ 0)
bit_or_zero x y = or_zero_below x x y (omega arith)

pub bit_xor_zero : (x y : ℕ) → bit_xor x y ≡ 0 → x ≡ y
bit_xor_zero x y e = sym (bit_xor-zero x) ∙ (ap (bit_xor x) (sym e) ∙ bit_xor_twice x y)

pub bit_xor_self : (x : ℕ) → bit_xor x x ≡ 0
bit_xor_self x = ap (bit_xor x) (sym (bit_xor-zero x)) ∙ bit_xor_twice x 0

pub bit_and-one : (x : ℕ) → bit_and x 1 ≡ x % 2
bit_and-one x = bit_and-mask 1 x

parity : (x r : ℕ) → x % 2 ≡ r → x / 2 * 2 + differ r 1 ≡ (if r == 0 then x + 1 else x - 1)
parity x zero e = omega (arith, e)
parity x (suc zero) e = omega (arith, e)
parity x (suc (suc r)) e = absurd (omega (arith, e))

-- The sibling of a left child is the next node, that of a right child the one before.
pub bit_xor-one : (x : ℕ) → bit_xor x 1 ≡ (if x % 2 == 0 then x + 1 else x - 1)
bit_xor-one x = xor_low x 1 ∙ rw (bit_xor-zero (x / 2)) (parity x (x % 2) refl)
