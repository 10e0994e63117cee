-- ===== src/Base/Bits.antt =====
-- `&` with a mask of low bits, `^` with the same word twice, and the order of bits turned round.
pub mod Zero
use Prim.Native.Nat.{
  min, digits, bitwise, differ, bit_and-bitwise, bit_xor-bitwise, bit_and, bit_xor, ℕ, zero, suc,
  ◌+◌, ◌-◌, ◌*◌, ◌/◌, ◌%◌, ◌^◌, ◌≤◌, ◌<◌,
}
use mathlib.Core.Path.{◌≡◌, refl, ap, ◌∙◌}
use native.Mathlib.Nat.{
  pow-suc, one-le-pow, pow-le-pow_right, add-zero, add-suc, mod-lt, div-add-mod,
  add-mul-mod_self_left, mod-eq_of_lt,
}
use native.Mathlib.Omega.{arith}

-- The digit recursion gives the same result on any count of digits that covers the first number.
module _ (done : ℕ → ℕ) (op : ℕ → ℕ → ℕ) where
  same_digits : (k l x y : ℕ) → x ≤ k → x ≤ l → digits done op k x y ≡ digits done op l x y
  same_digits zero zero x y hk hl = refl
  same_digits (suc k) zero zero y hk hl = refl
  same_digits zero (suc l) zero y hk hl = refl
  same_digits (suc k) (suc l) zero y hk hl = refl
  same_digits (suc k) zero (suc x) y hk hl = absurd (omega arith)
  same_digits zero (suc l) (suc x) y hk hl = absurd (omega arith)
  same_digits (suc k) (suc l) (suc x) y hk hl =
      ap (λ r. r * 2 + op (suc x % 2) (y % 2))
        (same_digits k l (suc x / 2) (y / 2) (omega arith) (omega arith))

  split_low :
      (x y : ℕ)
      → bitwise done op (suc x) y ≡ bitwise done op (suc x / 2) (y / 2) * 2 + op (suc x % 2) (y % 2)
  split_low x y =
      ap (λ r. r * 2 + op (suc x % 2) (y % 2))
        (same_digits x (suc x / 2) (suc x / 2) (y / 2) (omega arith) (omega arith))

and_low : (x y : ℕ) → bit_and x y ≡ bit_and (x / 2) (y / 2) * 2 + min (x % 2) (y % 2)
and_low zero y = simp bit_and-bitwise (omega arith)
and_low (suc x) y = simp bit_and-bitwise (split_low (λ b. 0) min x y)

xor_low : (x y : ℕ) → bit_xor x y ≡ bit_xor (x / 2) (y / 2) * 2 + differ (x % 2) (y % 2)
xor_low zero y = simp bit_xor-bitwise (omega arith)
xor_low (suc x) y = simp bit_xor-bitwise (split_low (λ b. b) differ x y)

zero-bit_and : (y : ℕ) → bit_and 0 y ≡ 0
zero-bit_and y = bit_and-bitwise 0 y

zero-bit_xor : (y : ℕ) → bit_xor 0 y ≡ y
zero-bit_xor y = bit_xor-bitwise 0 y

and-zero_below : (n x : ℕ) → x ≤ n → bit_and x 0 ≡ 0
and-zero_below n zero h = zero-bit_and 0
and-zero_below zero (suc x) h = absurd (omega arith)
and-zero_below (suc n) (suc x) h =
    omega (arith, and_low (suc x) 0, and-zero_below n (suc x / 2) (omega arith))

pub bit_and-zero : (x : ℕ) → bit_and x 0 ≡ 0
bit_and-zero x = and-zero_below x x (omega arith)

pub two_pow-suc : (k : ℕ) → 2 ^ suc k ≡ 2 * 2 ^ k
two_pow-suc k = omega (arith, pow-suc 2 k)

pub two_pow-pos : (k : ℕ) → 0 < 2 ^ k
two_pow-pos k = omega (arith, one-le-pow k 2)

pub two_pow_mono : (j k : ℕ) → j ≤ k → 2 ^ j ≤ 2 ^ k
two_pow_mono j k h = pow-le-pow_right (omega arith) h

pub two_pow-add : (j k : ℕ) → 2 ^ (j + k) ≡ 2 ^ j * 2 ^ k
two_pow-add j zero = omega (arith, ap (λ n. 2 ^ n) (add-zero j))
two_pow-add j (suc k) = omega (
  arith,
  ap (λ n. 2 ^ n) (add-suc j k),
  two_pow-suc (j + k),
  ap (λ m. 2 ^ j * m) (two_pow-suc k),
  two_pow-add j k,
)

-- The remainder by an even number goes by its lowest bit and the rest.
pub mod-two_mul : (x m : ℕ) → 0 < m → x % (2 * m) ≡ 2 * (x / 2 % m) + x % 2
mod-two_mul x m h =
    let q : ℕ = x / 2 / m in
    let r : ℕ = x / 2 % m in
    let small : r < m = mod-lt (x / 2) h in
    let split : x ≡ 2 * r + x % 2 + 2 * m * q = omega (arith, div-add-mod (x / 2) m) in
    ap (λ y. y % (2 * m)) split
    ∙ (add-mul-mod_self_left (2 * r + x % 2) (2 * m) q ∙ mod-eq_of_lt (omega (arith, small)))

-- `x & (2^k - 1)` is the remainder by 2^k.
pub bit_and-mask : (k x : ℕ) → bit_and x (2 ^ k - 1) ≡ x % 2 ^ k
bit_and-mask zero x = omega (arith, bit_and-zero x)
bit_and-mask (suc k) x = ground (
  arith,
  mod-two_mul x (2 ^ k),
  ap (λ m. x % m) (two_pow-suc k),
  and_low x (2 ^ suc k - 1),
  two_pow-suc k,
  one-le-pow k 2,
  bit_and-mask k (x / 2),
)

differ_twice : (a b : ℕ) → a < 2 → b < 2 → differ a (differ a b) ≡ b
differ_twice zero b ha hb = refl
differ_twice (suc zero) zero ha hb = refl
differ_twice (suc zero) (suc zero) ha hb = refl
differ_twice (suc zero) (suc (suc b)) ha hb = absurd (omega arith)
differ_twice (suc (suc a)) b ha hb = absurd (omega arith)

differ-zero : (a : ℕ) → differ a 0 ≡ a
differ-zero zero = refl
differ-zero (suc a) = refl

differ-lt : (a b : ℕ) → a < 2 → b < 2 → differ a b < 2
differ-lt zero b ha hb = hb
differ-lt (suc zero) zero ha hb = omega arith
differ-lt (suc zero) (suc zero) ha hb = omega arith
differ-lt (suc zero) (suc (suc b)) ha hb = absurd (omega arith)
differ-lt (suc (suc a)) b ha hb = absurd (omega arith)

xor_twice_below : (n x y : ℕ) → x ≤ n → bit_xor x (bit_xor x y) ≡ y
xor_twice_below n zero y h = zero-bit_xor _ ∙ zero-bit_xor y
xor_twice_below zero (suc x) y h = absurd (omega arith)
xor_twice_below (suc n) (suc x) y h =
    let z : ℕ = bit_xor (suc x) y in
    let low : z ≡ bit_xor (suc x / 2) (y / 2) * 2 + differ (suc x % 2) (y % 2) =
      xor_low (suc x) y in
    let small : differ (suc x % 2) (y % 2) < 2 =
      differ-lt (suc x % 2) (y % 2) (omega arith) (omega arith) in
    let half : z / 2 ≡ bit_xor (suc x / 2) (y / 2) = omega (arith, low, small) in
    let rest : z % 2 ≡ differ (suc x % 2) (y % 2) = omega (arith, low, small) in
    xor_low (suc x) z
    ∙ rw (half, rest)
        (rw
          (
            xor_twice_below n (suc x / 2) (y / 2) (omega arith),
            differ_twice (suc x % 2) (y % 2) (omega arith) (omega arith),
          )
          (omega arith))

-- `x ^ (x ^ y)` is `y`.
pub bit_xor_twice : (x y : ℕ) → bit_xor x (bit_xor x y) ≡ y
bit_xor_twice x y = xor_twice_below x x y (omega arith)

xor-zero_below : (n x : ℕ) → x ≤ n → bit_xor x 0 ≡ x
xor-zero_below n zero h = zero-bit_xor 0
xor-zero_below zero (suc x) h = absurd (omega arith)
xor-zero_below (suc n) (suc x) h =
    omega (
      arith,
      xor_low (suc x) 0,
      differ-zero (suc x % 2),
      xor-zero_below n (suc x / 2) (omega arith),
    )

pub bit_xor-zero : (x : ℕ) → bit_xor x 0 ≡ x
bit_xor-zero x = xor-zero_below x x (omega arith)

xor-lt_width : (k x y : ℕ) → x < 2 ^ k → y < 2 ^ k → bit_xor x y < 2 ^ k
xor-lt_width zero x y hx hy =
    let ex : x ≡ 0 = omega arith in
    let ey : y ≡ 0 = omega arith in rw (ex, ey) (omega (arith, zero-bit_xor 0))
xor-lt_width (suc k) x y hx hy = omega (
  arith,
  xor_low x y,
  pow-suc 2 k,
  differ-lt (x % 2) (y % 2) (omega arith) (omega arith),
  xor-lt_width k (x / 2) (y / 2) (omega (arith, pow-suc 2 k)) (omega (arith, pow-suc 2 k)),
)

-- The exclusive or of two words is a word.
pub bit_xor-lt : (k x y : ℕ) → x < 2 ^ k → y < 2 ^ k → bit_xor x y < 2 ^ k
bit_xor-lt k x y hx hy = xor-lt_width k x y hx hy
