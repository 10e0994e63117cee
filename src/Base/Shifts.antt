-- ===== src/Base/Shifts.antt =====
-- The shifts of words of 64 bits, where they do not wrap around.
use native.Mathlib.Nat.{mod-eq_of_lt, add-mod_right}
use oram.Base.{ℕ, suc, ◌+◌, ◌-◌, ◌*◌, ◌/◌, ◌%◌, ◌^◌, ◌≤◌, ◌<◌, ◌≡◌, ◌∙◌, ap, arith}
use oram.Base.Bits.{two_pow-suc, two_pow-pos, two_pow_mono}
use oram.Base.Words.{wrapping_shl, wrapping_shr, wrapping_sub}

-- A shift that is less than the width, and a difference that is none below 0.
pub shl_in_word : (depth : ℕ) → depth < 64 → wrapping_shl 1 depth ≡ 2 ^ depth
unfolding wrapping_shl
shl_in_word depth h =
    let small : depth % 64 ≡ depth = mod-eq_of_lt h in
    let fits : 1 * 2 ^ depth < 2 ^ 64 =
      omega (arith, two_pow_mono (suc depth) 64 h, two_pow-suc depth, two_pow-pos depth) in
    rw small (mod-eq_of_lt fits ∙ omega arith)

pub shr_in_word :
    (b depth x : ℕ)
    → depth ≤ b
    → b < 64
    → wrapping_shr x (wrapping_sub b depth) ≡ x / 2 ^ (b - depth)
unfolding wrapping_shr wrapping_sub
shr_in_word b depth x h small =
    let e : (b + 2 ^ 64 - depth) % 2 ^ 64 ≡ b - depth =
      ap (λ n. n % 2 ^ 64) (omega (arith, h))
      ∙ (add-mod_right (b - depth) (2 ^ 64) ∙ mod-eq_of_lt (omega (arith, small))) in
    let m : (b - depth) % 64 ≡ b - depth = mod-eq_of_lt (omega (arith, small)) in
    rw e (ap (λ k. x / 2 ^ k) m)
