-- ===== src/Base/Count.antt =====
-- How many items of a list pass a test.
use Prim.Native.Nat.{ℕ, ◌+◌, ◌≤◌, zero, suc}
use mathlib.Core.Path.{◌≡◌, refl}
use mathlib.Core.Bool.{Bool, false}
use mathlib.Core.List.{List, [], ◌∷◌, ◌++◌}
use native.Mathlib.Omega.{arith}
use oram.Base.Tests.{bit}
use oram.Base.Lists.{length, replicate}

module _ {ℓ} {A : Type ℓ} (test : A → Bool) where
  unfoldable pub count : List A → ℕ
  count [] = 0
  count (x ∷ xs) = bit (test x) + count xs

  pub count-append : (xs ys : List A) → count (xs ++ ys) ≡ count xs + count ys
  unfolding count
  count-append [] ys = omega arith
  count-append (x ∷ xs) ys = omega (arith, count-append xs ys)

  pub count-replicate : (n : ℕ) (x : A) → test x ≡ false → count (replicate n x) ≡ 0
  unfolding count
  count-replicate zero x h = refl
  count-replicate (suc n) x h = ground (arith, count-replicate n x h)

  pub count-le : (xs : List A) → count xs ≤ length xs
  unfolding count
  count-le [] = omega arith
  count-le (x ∷ xs) = ground (arith, count-le xs)
