-- ===== src/Base/Powers.antt =====
-- The operations on words at powers of two.
use Prim.Native.Nat.{ℕ, zero, suc, ◌+◌, ◌*◌, ◌^◌, ◌≤◌, ◌<◌}
use native.Mathlib.Nat.{pow-suc}
use mathlib.Core.Path.{◌≡◌, refl, subst, sym, ap, ◌∙◌}
use mathlib.Core.Logic.{inl, inr}
use mathlib.Core.Bool.{false}
use mathlib.Core.Option.{some, none}
use native.Mathlib.Omega.{arith}
use oram.Base.Tests.{leb, leb→le, Bool-cases, if◌then◌else◌}
use oram.Base.Bits.{two_pow_mono}
use oram.Base.Words.{trailing_zeros, first_power, checked_next_power_of_two}

more : (k top x : ℕ) → x ≤ 2 ^ top → k ≤ top → leb x (2 ^ k) ≡ false → suc k ≤ top
more k top x h lo e = ground (arith, two_pow_mono top k)

first_power-is_pow :
    (rounds k top x : ℕ)
    → x ≤ 2 ^ top
    → k ≤ top
    → top ≤ rounds + k
    → (j : ℕ) × (first_power rounds (2 ^ k) x ≡ 2 ^ j) × (x ≤ 2 ^ j) × (j ≤ top)
unfolding first_power
first_power-is_pow zero k top x h lo hi =
    let e : top ≡ k = omega arith in (k, refl, subst (λ n. x ≤ 2 ^ n) e h, lo)
first_power-is_pow (suc rounds) k top x h lo hi = elim (Bool-cases (leb x (2 ^ k))) [
  | inl e ↦ rw e (k, refl, leb→le x (2 ^ k) e, lo)
  | inr e ↦
      let d : 2 * 2 ^ k ≡ 2 ^ suc k = omega (arith, pow-suc 2 k) in
      rw (e, d) (first_power-is_pow rounds (suc k) top x h (more k top x h lo e) (omega arith))
]

below_64 : (k : ℕ) → 2 ^ k < 2 ^ 64 → k < 64
below_64 k h = ground (arith, two_pow_mono 64 k)

in_word : (q p : ℕ) → (if leb (2 ^ 64) q then none else some q) ≡ some p → (p ≡ q) × (q < 2 ^ 64)
in_word q p h = ground arith

chosen : (q : ℕ) → q ≤ 2 ^ 63 → (if leb (2 ^ 64) q then none else some q) ≡ some q
chosen q h = ground arith

-- It is the power of two that it says, and reaches the number.
pub checked_next_power_of_two_lem :
    (x p : ℕ)
    → x < 2 ^ 64
    → checked_next_power_of_two x ≡ some p
    → (k : ℕ) × (p ≡ 2 ^ k) × (x ≤ p) × (k < 64)
unfolding checked_next_power_of_two
checked_next_power_of_two_lem x p lt h =
    let (k, is, reach, _) =
      first_power-is_pow 64 0 64 x (omega arith) (omega arith) (omega arith) in
    let (same, small) = in_word (first_power 64 1 x) p h in
    (k, same ∙ is, rw same (rw is reach), below_64 k (rw (sym is) small))

-- There is one for every number up to the greatest power of two, and it is the least.
pub checked_next_power_of_two-some :
    (top x : ℕ)
    → top ≤ 63
    → x ≤ 2 ^ top
    → (k : ℕ) × (checked_next_power_of_two x ≡ some (2 ^ k)) × (x ≤ 2 ^ k) × (k ≤ top)
unfolding checked_next_power_of_two
checked_next_power_of_two-some top x t h =
    let (k, is, reach, low) = first_power-is_pow 64 0 top x h (omega arith) (omega (arith, t)) in
    (
      k,
      chosen (first_power 64 1 x) (rw is (two_pow_mono k 63 (omega (arith, low, t)))) ∙ ap some is,
      reach,
      low,
    )

pub trailing_zeros-pow : (w k : ℕ) → k ≤ w → trailing_zeros w (2 ^ k) ≡ k
unfolding trailing_zeros
trailing_zeros-pow zero k h = omega arith
trailing_zeros-pow (suc w) zero h = refl
trailing_zeros-pow (suc w) (suc k) h = ground (arith, pow-suc 2 k, trailing_zeros-pow w k)
