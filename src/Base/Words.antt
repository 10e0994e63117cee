-- ===== src/Base/Words.antt =====
-- The operations of Rust's standard library on unsigned words that the source calls.
use Prim.Native.Nat.{ℕ, zero, suc, ◌+◌, ◌-◌, ◌*◌, ◌/◌, ◌%◌, ◌^◌}
use mathlib.Core.Path.{◌≡◌}
use mathlib.Core.Bool.{Bool, true}
use mathlib.Core.Option.{Option, none, some}
use oram.Base.Tests.{◌==◌, ==→eq, leb, if◌then◌else◌}

-- `trailing_zeros` of a word of `w` bits: `w` at 0.
unfoldable pub trailing_zeros : ℕ → ℕ → ℕ
trailing_zeros zero x = 0
trailing_zeros (suc w) x = if x % 2 == 1 then 0 else suc (trailing_zeros w (x / 2))

-- Exactly the powers of two are 2 to their number of trailing zeros.
unfoldable pub is_power_of_two : ℕ → Bool
unfolding trailing_zeros
is_power_of_two x = 2 ^ trailing_zeros 64 x == x

pub pow_trailing_zeros : (x : ℕ) → is_power_of_two x ≡ true → 2 ^ trailing_zeros 64 x ≡ x
unfolding is_power_of_two
pow_trailing_zeros x h = ==→eq _ _ h

-- The first of p, 2p, 4p, … that reaches `x`, in at most `rounds` doublings.
unfoldable pub first_power : ℕ → ℕ → ℕ → ℕ
first_power zero p x = p
first_power (suc rounds) p x =
    let rest = first_power rounds (2 * p) x in if leb x p then p else rest

-- `usize::next_power_of_two`, which wraps to 0 above 2^63.
pub next_power_of_two : ℕ → ℕ
unfolding first_power
next_power_of_two x = first_power 64 1 x % 2 ^ 64

-- `reverse_bits` of a word of `w` bits.
unfoldable pub reverse_bits : ℕ → ℕ → ℕ
reverse_bits zero x = 0
reverse_bits (suc w) x = x % 2 * 2 ^ w + reverse_bits w (x / 2)

-- `usize::checked_next_power_of_two`, for words of 64 bits.
unfoldable pub checked_next_power_of_two : ℕ → Option ℕ
unfolding first_power
checked_next_power_of_two x = let p = first_power 64 1 x in if leb (2 ^ 64) p then none else some p

-- `usize::checked_shl`: none when the shift is not less than the width.
unfoldable pub checked_shl : ℕ → ℕ → Option ℕ
checked_shl x shift = if leb 64 shift then none else some (x * 2 ^ shift % 2 ^ 64)

-- `<<`, `>>` and `-` on words of 64 bits, as in a release build: a shift is by its low 6 bits.
unfoldable pub wrapping_shl : ℕ → ℕ → ℕ
wrapping_shl x shift = x * 2 ^ (shift % 64) % 2 ^ 64

unfoldable pub wrapping_shr : ℕ → ℕ → ℕ
wrapping_shr x shift = x / 2 ^ (shift % 64)

unfoldable pub wrapping_sub : ℕ → ℕ → ℕ
wrapping_sub x y = (x + 2 ^ 64 - y) % 2 ^ 64
