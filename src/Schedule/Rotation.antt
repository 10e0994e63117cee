-- ===== src/Schedule/Rotation.antt =====
-- src/circuit.rs, `reverse_bits_mod`: the order in which the leaves are evicted.
use native.Mathlib.Nat.{
  mod-mod_of_dvd, mul-div_cancel, mod-lt, mul-le-mul_left, div-add-mod, add-mod-mod, mod-add-mod,
  add-mod_right, add-sub_of_le, mod-eq_of_lt,
}
use native.Mathlib.Numerals.{add-one}
use oram.Base.{
  if◌then◌else◌, ◌==◌, ==→eq, Bool-cases, inl, inr, ltb, ltb→lt, ltb→le, ℕ, ◌+◌, ◌-◌, ◌*◌, ◌/◌, ◌%◌,
  ◌^◌, ◌≤◌, ◌<◌, ◌≡◌, refl, sym, ap, ◌∙◌, arith, bit_and,
}
use oram.Base.Words.{reverse_bits}
use oram.Base.Bits.{bit_and-mask, two_pow-add, two_pow-pos}
use oram.Base.Reverse.{reverse_bits-wide, reverse_bits-lt, reverse_bits_twice}
use oram.Schedule.{reverse_bits_mod, eviction_leaf_at}
use oram.Params.{OramParams, leaf_bits}
use oram.Params.Geometry.{IsTree, leaf_bits-lt, leaf_bits-pos}

two_pow-divides : (b w x : ℕ) → b ≤ w → x % 2 ^ w % 2 ^ b ≡ x % 2 ^ b
two_pow-divides b w x h =
    mod-mod_of_dvd (2 ^ b) x
      ∣ (2 ^ (w - b), ap (λ k. 2 ^ k) (sym (add-sub_of_le h)) ∙ two_pow-add b (w - b)) ∣₁

mask_lem :
    (b x : ℕ) → b ≤ 32 → bit_and x (if b == 32 then 2 ^ 32 - 1 else 2 ^ (b % 32) - 1) ≡ x % 2 ^ b
mask_lem b x h = elim (Bool-cases (b == 32)) [
  | inl e ↦ rw e (bit_and-mask 32 x ∙ ap (λ k. x % 2 ^ k) (sym (==→eq b 32 e)))
  | inr e ↦
      let low : b % 32 ≡ b = mod-eq_of_lt (ground (arith, h, e)) in rw (e, low) (bit_and-mask b x)
]

shift_lem : (b : ℕ) → 0 < b → b ≤ 32 → (2 ^ 32 + 32 - b) % 32 ≡ 32 - b
shift_lem b pos h = omega (arith, pos, h)

-- For a width of 1 to 32 bits, `reverse_bits_mod` reverses the low bits of the index at that
-- width.
pub reverse_bits_mod_lem :
    (index b : ℕ) → 0 < b → b ≤ 32 → reverse_bits_mod index b ≡ reverse_bits b (index % 2 ^ b)
unfolding reverse_bits_mod
reverse_bits_mod_lem index b pos h =
    let low : ℕ = index % 2 ^ 32 in
    rw (shift_lem b pos h) (
      rw (mask_lem b low h) (
        rw (reverse_bits-wide b 32 (low % 2 ^ b) h (mod-lt low (two_pow-pos b))) (
          mul-div_cancel (reverse_bits b (low % 2 ^ b)) (two_pow-pos (32 - b))
          ∙ ap (reverse_bits b) (two_pow-divides b 32 index h))))

-- Evictions go through the leaves in the order of their reversed bits, and then again.
eviction_leaf_at_lem :
    {p : OramParams} (i : ℕ)
    → IsTree p
    → eviction_leaf_at p i ≡ reverse_bits (leaf_bits p) (i % p.leaves)
unfolding eviction_leaf_at
eviction_leaf_at_lem {p} i t =
    reverse_bits_mod_lem i (leaf_bits p) (leaf_bits-pos t) (omega (arith, leaf_bits-lt t))
    ∙ ap (λ m. reverse_bits (leaf_bits p) (i % m)) (sym t.leaves_pow)

-- Every leaf that is evicted is a leaf of the tree.
pub eviction_leaf_at-lt : {p : OramParams} (i : ℕ) → IsTree p → eviction_leaf_at p i < p.leaves
eviction_leaf_at-lt {p} i t =
    omega
      (arith, eviction_leaf_at_lem i t, t.leaves_pow, reverse_bits-lt (leaf_bits p) (i % p.leaves))

-- Of two numbers with one remainder, less than `n` apart, neither is less than the other.
same_remainder : (n start i j : ℕ) → 0 < n → start ≤ i → j < start + n → i % n ≡ j % n → j ≤ i
same_remainder n start i j pos hi hj e = elim (Bool-cases (ltb (i / n) (j / n))) [
  | inl less ↦ absurd (
      omega (
        arith,
        mul-le-mul_left n (ltb→lt _ _ less),
        ap (λ m. n * m) (add-one (i / n)),
        div-add-mod i n,
        div-add-mod j n,
      ))
  | inr more ↦ omega (arith, mul-le-mul_left n (ltb→le _ _ more), div-add-mod i n, div-add-mod j n)
]

-- The number in start, …, start + n - 1 with remainder `r`.
in_window : (n start r : ℕ) → r < n → (start + (r + n - start % n) % n) % n ≡ r
in_window n start r h =
    add-mod-mod start (r + n - start % n) n
    ∙ (sym (mod-add-mod start n (r + n - start % n))
        ∙ (ap (λ x. x % n) (omega (arith, mod-lt start {m = n} (omega arith)))
            ∙ (add-mod_right r n ∙ mod-eq_of_lt h)))

eviction_leaf_at_once :
    {p : OramParams} (start leaf : ℕ)
    → IsTree p
    → leaf < p.leaves
    → (i : ℕ) × (start ≤ i)
      × (i < start + p.leaves)
      × (eviction_leaf_at p i ≡ leaf)
      × ((j : ℕ) → start ≤ j → j < start + p.leaves → eviction_leaf_at p j ≡ leaf → j ≡ i)
eviction_leaf_at_once {p} start leaf t h =
    (i, omega arith, omega (arith, mod-lt (r + n - start % n) {m = n} (omega arith)), found, only)
  where
    n : ℕ
    n = p.leaves

    b : ℕ
    b = leaf_bits p

    r : ℕ
    r = reverse_bits b leaf

    r-lt : r < n
    r-lt = omega (arith, reverse_bits-lt b leaf, t.leaves_pow)

    i : ℕ
    i = start + (r + n - start % n) % n

    i-lt : i < start + n
    i-lt = omega (arith, mod-lt (r + n - start % n) {m = n} (omega arith))

    found : eviction_leaf_at p i ≡ leaf
    found =
        eviction_leaf_at_lem i t
        ∙ (ap (reverse_bits b) (in_window n start r r-lt)
            ∙ reverse_bits_twice b leaf (omega (arith, t.leaves_pow)))

    only : (j : ℕ) → start ≤ j → j < start + n → eviction_leaf_at p j ≡ leaf → j ≡ i
    only j lo hi e =
        let back : j % n ≡ r =
          sym (
            reverse_bits_twice b (j % n)
              (omega (arith, mod-lt j {m = n} (omega arith), t.leaves_pow)))
          ∙ ap (reverse_bits b) (sym (eviction_leaf_at_lem j t) ∙ e) in
        let same : i % n ≡ j % n = in_window n start r r-lt ∙ sym back in
        omega (
          arith,
          same_remainder n start i j (omega arith) (omega arith) hi same,
          same_remainder n start j i (omega arith) lo i-lt (sym same),
        )

-- Among any `leaves` evictions in a row of a valid tree, every leaf in range has one.
pub eviction_leaf_at_reached :
    {p : OramParams} (start leaf : ℕ)
    → IsTree p
    → leaf < p.leaves
    → (i : ℕ) × (start ≤ i) × (i < start + p.leaves) × (eviction_leaf_at p i ≡ leaf)
eviction_leaf_at_reached start leaf t h =
    let (i, lo, hi, e, only) = eviction_leaf_at_once start leaf t h in (i, lo, hi, e)

-- Among any `leaves` evictions in a row of a valid tree, two that have the same leaf are the same
-- eviction.
pub eviction_leaf_at_distinct :
    {p : OramParams} (start i j : ℕ)
    → IsTree p
    → start ≤ i
    → i < start + p.leaves
    → start ≤ j
    → j < start + p.leaves
    → eviction_leaf_at p i ≡ eviction_leaf_at p j
    → i ≡ j
eviction_leaf_at_distinct {p} start i j t lo hi lo' hi' e =
    let once = eviction_leaf_at_once start (eviction_leaf_at p j) t (eviction_leaf_at-lt j t) in
    once.4 i lo hi e ∙ sym (once.4 j lo' hi' refl)
