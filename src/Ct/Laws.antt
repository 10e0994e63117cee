-- ===== src/Ct/Laws.antt =====
-- What the selections of src/ct.rs compute, in terms of the test that a choice stands for.
use oram.Base.{
  refl, ℕ, ◌<◌, ◌-◌, ◌^◌, ◌≡◌, refl, Bool, ◌&&◌, ◌||◌, List, [], ◌∷◌, bit, ◌==◌, if◌then◌else◌,
  arith, length, bit_and, bit_xor, not as bool_not,
}
use oram.Base.Bits.{bit_and-zero, bit_and-mask, bit_xor_twice, bit_xor-zero, bit_xor-lt}
use oram.Ct.{
  Subtle, choice_from_bool, not, and, or, mask8, wrapping_neg, eq_u64, eq_u32, eq_usize,
  is_zero_u64, cmov_u8, cmov_u32, cmov_u64, cmov_usize, cmov_bytes,
}

module _ (S : Subtle) where
  open S use {Choice, unwrap_u8}

  -- The test that a choice stands for.
  unfoldable pub holds : Choice → Bool
  holds c = unwrap_u8 c == 1

  pub is_one_lem : (c : Choice) → (unwrap_u8 c == 1) ≡ holds c
  unfolding holds
  is_one_lem c = refl

  pub unwrap_u8-holds : (c : Choice) → unwrap_u8 c ≡ bit (holds c)
  unfolding holds
  unwrap_u8-holds c = ground (arith, S.unwrap_u8-le c)

  pub holds-choice_from_bool : (b : Bool) → holds (choice_from_bool S b) ≡ b
  unfolding holds choice_from_bool
  holds-choice_from_bool b = ground (arith, S.unwrap_u8-from b)

  pub holds-not : (c : Choice) → holds (not S c) ≡ bool_not (holds c)
  unfolding holds not
  holds-not c = ground (arith, S.unwrap_u8-not c, S.unwrap_u8-le c)

  pub holds-and : (c d : Choice) → holds (and S c d) ≡ (holds c && holds d)
  unfolding holds and
  holds-and c d = ground (arith, S.unwrap_u8-and c d, S.unwrap_u8-le c, S.unwrap_u8-le d)

  pub holds-or : (c d : Choice) → holds (or S c d) ≡ (holds c || holds d)
  unfolding holds or
  holds-or c d = ground (arith, S.unwrap_u8-or c d, S.unwrap_u8-le c, S.unwrap_u8-le d)

  pub holds-eq_u64 : (a b : ℕ) → holds (eq_u64 S a b) ≡ (a == b)
  unfolding holds eq_u64
  holds-eq_u64 a b = ground (arith, S.unwrap_u8-ct_eq a b)

  pub holds-eq_u32 : (a b : ℕ) → holds (eq_u32 S a b) ≡ (a == b)
  unfolding holds eq_u32
  holds-eq_u32 a b = ground (arith, S.unwrap_u8-ct_eq a b)

  pub holds-eq_usize : (a b : ℕ) → holds (eq_usize S a b) ≡ (a == b)
  unfolding holds eq_usize
  holds-eq_usize a b = ground (arith, S.unwrap_u8-ct_eq a b)

  pub holds-is_zero_u64 : (a : ℕ) → holds (is_zero_u64 S a) ≡ (a == 0)
  unfolding holds is_zero_u64
  holds-is_zero_u64 a = ground (arith, S.unwrap_u8-ct_eq a 0)

  pub cmov_u8_lem : (a b : ℕ) (c : Choice) → cmov_u8 S a b c ≡ (if holds c then b else a)
  unfolding holds cmov_u8
  cmov_u8_lem a b c = S.conditional_select_lem a b c

  pub cmov_u32_lem : (a b : ℕ) (c : Choice) → cmov_u32 S a b c ≡ (if holds c then b else a)
  unfolding holds cmov_u32
  cmov_u32_lem a b c = S.conditional_select_lem a b c

  pub cmov_u64_lem : (a b : ℕ) (c : Choice) → cmov_u64 S a b c ≡ (if holds c then b else a)
  unfolding holds cmov_u64
  cmov_u64_lem a b c = S.conditional_select_lem a b c

  -- On two words of 64 bits, the masked move of a `usize` gives the source when chosen and the
  -- destination otherwise.
  pub cmov_usize_lem :
      (a b : ℕ) (c : Choice)
      → a < 2 ^ 64
      → b < 2 ^ 64
      → cmov_usize S a b c ≡ (if holds c then b else a)
  unfolding holds cmov_usize
  cmov_usize_lem a b c ha hb = ground (
    arith,
    S.unwrap_u8-le c,
    bit_and-zero (bit_xor a b),
    bit_and-mask 64 (bit_xor a b),
    bit_xor-lt 64 a b ha hb,
    bit_xor-zero a,
    bit_xor_twice a b,
  )

  -- On two byte strings of one length, the masked move gives the source when chosen and the
  -- destination otherwise.
  pub cmov_bytes_lem :
      (dst src : List ℕ) (c : Choice)
      → length dst ≡ length src
      → cmov_bytes S dst src c ≡ (if holds c then src else dst)
  unfolding holds cmov_bytes
  cmov_bytes_lem [] [] c e = ground arith
  cmov_bytes_lem [] (s ∷ src) c e = absurd (omega arith)
  cmov_bytes_lem (d ∷ dst) [] c e = absurd (omega arith)
  cmov_bytes_lem (d ∷ dst) (s ∷ src) c e =
      ground (arith, S.conditional_select_lem d s c, cmov_bytes_lem dst src c (omega arith))

  -- `!mask8(choice)` keeps all of a byte, or nothing.
  pub keep_mask_lem :
      (byte : ℕ) (c : Choice)
      → byte < 256
      → bit_and byte (255 - mask8 S c) ≡ (if holds c then 0 else byte)
  unfolding holds mask8 wrapping_neg
  keep_mask_lem byte c h = ground (arith, S.unwrap_u8-le c, bit_and-zero byte, bit_and-mask 8 byte)
