-- ===== src/Base/Reverse.antt =====
-- Turning the order of bits round: within a wider word, of a number with one more high bit, twice.
use native.Mathlib.Nat.{add-sub_of_le}
use Prim.Native.Nat.{ℕ, zero, suc, ◌+◌, ◌-◌, ◌*◌, ◌/◌, ◌%◌, ◌^◌, ◌≤◌, ◌<◌}
use mathlib.Core.Path.{◌≡◌, refl, ap, ◌∙◌, sym}
use native.Mathlib.Omega.{arith}
use oram.Base.Words.{reverse_bits}
use oram.Base.Bits.{two_pow-suc, two_pow-add}

reverse_bits-suc : (w x : ℕ) → reverse_bits (suc w) x ≡ x % 2 * 2 ^ w + reverse_bits w (x / 2)
unfolding reverse_bits
reverse_bits-suc w x = refl

reverse_bits-none : (x : ℕ) → reverse_bits 0 x ≡ 0
unfolding reverse_bits
reverse_bits-none x = refl

reverse_bits-zero : (w : ℕ) → reverse_bits w 0 ≡ 0
reverse_bits-zero zero = reverse_bits-none 0
reverse_bits-zero (suc w) = omega (arith, reverse_bits-suc w 0, reverse_bits-zero w)

pub reverse_bits-lt : (w x : ℕ) → reverse_bits w x < 2 ^ w
reverse_bits-lt zero x = omega (arith, reverse_bits-none x)
reverse_bits-lt (suc w) x =
    grind (arith, two_pow-suc w, reverse_bits-lt w (x / 2), reverse_bits-suc w x)

-- In a word of `w` bits a number of `b` bits ends at the top.
pub reverse_bits-wide :
    (b w x : ℕ) → b ≤ w → x < 2 ^ b → reverse_bits w x ≡ reverse_bits b x * 2 ^ (w - b)
reverse_bits-wide zero w x h hx =
    let e : x ≡ 0 = omega arith in
    rw e (
      omega (
        arith,
        reverse_bits-zero w,
        reverse_bits-none 0,
        ap (λ r. r * 2 ^ (w - 0)) (reverse_bits-none 0),
      ))
reverse_bits-wide (suc b) zero x h hx = absurd (omega arith)
reverse_bits-wide (suc b) (suc w) x h hx =
    let gap : suc w - suc b ≡ w - b = omega arith in
    let whole : 2 ^ w ≡ 2 ^ b * 2 ^ (w - b) =
      ap (λ k. 2 ^ k) (sym (add-sub_of_le {n = w} {m = b} (omega arith))) ∙ two_pow-add b (w - b) in
    rw gap (
      omega (
        arith,
        reverse_bits-suc w x,
        ap (λ r. r * 2 ^ (w - b)) (reverse_bits-suc b x),
        ap (λ m. x % 2 * m) whole,
        reverse_bits-wide b w (x / 2) (omega arith) (omega (arith, two_pow-suc b)),
      ))

-- A high bit becomes the lowest.
reverse_bits-high :
    (b c r : ℕ)
    → c < 2
    → r < 2 ^ b
    → reverse_bits (suc b) (c * 2 ^ b + r) ≡ 2 * reverse_bits b r + c
reverse_bits-high zero c r hc hr =
    let e : c * 2 ^ 0 + r ≡ c = omega arith in
    rw e (omega (arith, reverse_bits-suc 0 c, reverse_bits-none (c / 2), reverse_bits-none r))
reverse_bits-high (suc b) c r hc hr =
    let y : ℕ = c * 2 ^ suc b + r in
    let double : c * 2 ^ suc b ≡ 2 * (c * 2 ^ b) = omega (arith, ap (λ m. c * m) (two_pow-suc b)) in
    let low : y % 2 ≡ r % 2 = omega (arith, double) in
    let rest : y / 2 ≡ c * 2 ^ b + r / 2 = omega (arith, double) in
    omega (
      arith,
      reverse_bits-suc (suc b) y,
      ap (reverse_bits (suc b)) rest,
      ap (λ z. z * 2 ^ suc b) low,
      ap (λ m. r % 2 * m) (two_pow-suc b),
      reverse_bits-suc b r,
      reverse_bits-high b c (r / 2) hc (omega (arith, two_pow-suc b)),
    )

-- Turning twice gives the number back.
pub reverse_bits_twice : (b x : ℕ) → x < 2 ^ b → reverse_bits b (reverse_bits b x) ≡ x
reverse_bits_twice zero x h = omega (arith, reverse_bits-none (reverse_bits 0 x))
reverse_bits_twice (suc b) x h = omega (
  arith,
  ap (reverse_bits (suc b)) (reverse_bits-suc b x),
  reverse_bits-high b (x % 2) (reverse_bits b (x / 2)) (omega arith) (reverse_bits-lt b (x / 2)),
  reverse_bits_twice b (x / 2) (omega (arith, two_pow-suc b)),
)
