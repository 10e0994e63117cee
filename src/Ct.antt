-- ===== src/Ct.antt =====
-- src/ct.rs: selection without branches.
pub mod Laws
use oram.Base.{
  ℕ, ◌-◌, ◌+◌, ◌*◌, ◌%◌, ◌^◌, ◌≤◌, ◌≡◌, min, max, bit_and, bit_xor, Bool, List, [], ◌∷◌, bit, ◌==◌,
  if◌then◌else◌,
}

-- The crate `subtle`: a `Choice` wraps a `u8` that is 0 or 1.
pub record Subtle : Type 1 where
  pub Choice : Type 0
  pub from : ℕ → Choice
  pub unwrap_u8 : Choice → ℕ
  pub not : Choice → Choice
  pub and : Choice → Choice → Choice
  pub or : Choice → Choice → Choice
  pub ct_eq : ℕ → ℕ → Choice
  pub conditional_select : ℕ → ℕ → Choice → ℕ
  pub unwrap_u8-le : (c : Choice) → unwrap_u8 c ≤ 1
  pub unwrap_u8-from : (b : Bool) → unwrap_u8 (from (bit b)) ≡ bit b
  pub unwrap_u8-not : (c : Choice) → unwrap_u8 (not c) ≡ 1 - unwrap_u8 c
  pub unwrap_u8-and : (c d : Choice) → unwrap_u8 (and c d) ≡ min (unwrap_u8 c) (unwrap_u8 d)
  pub unwrap_u8-or : (c d : Choice) → unwrap_u8 (or c d) ≡ max (unwrap_u8 c) (unwrap_u8 d)
  pub unwrap_u8-ct_eq : (a b : ℕ) → unwrap_u8 (ct_eq a b) ≡ bit (a == b)
  pub conditional_select_lem :
      (a b : ℕ) (c : Choice) → conditional_select a b c ≡ (if unwrap_u8 c == 1 then b else a)

module _ (S : Subtle) where
  open S use {Choice, from, unwrap_u8, ct_eq, conditional_select}

  pub choice_from_bool : Bool → Choice
  choice_from_bool value = from (bit value)

  pub not : Choice → Choice
  not choice = S.not choice

  pub and : Choice → Choice → Choice
  and lhs rhs = S.and lhs rhs

  pub or : Choice → Choice → Choice
  or lhs rhs = S.or lhs rhs

  -- `0.wrapping_sub(choice)` at a width of `w` bits
  wrapping_neg : ℕ → ℕ → ℕ
  wrapping_neg w x = (2 ^ w - x) % 2 ^ w

  pub mask8 : Choice → ℕ
  mask8 choice = wrapping_neg 8 (unwrap_u8 choice)

  pub mask32 : Choice → ℕ
  mask32 choice = wrapping_neg 32 (unwrap_u8 choice)

  pub mask64 : Choice → ℕ
  mask64 choice = wrapping_neg 64 (unwrap_u8 choice)

  pub is_zero_u64 : ℕ → Choice
  is_zero_u64 value = ct_eq value 0

  pub eq_u64 : ℕ → ℕ → Choice
  eq_u64 lhs rhs = ct_eq lhs rhs

  pub eq_u32 : ℕ → ℕ → Choice
  eq_u32 lhs rhs = ct_eq lhs rhs

  pub eq_usize : ℕ → ℕ → Choice
  eq_usize lhs rhs = ct_eq lhs rhs

  -- The assignments return the new value of `dst`.
  pub cmov_u8 : ℕ → ℕ → Choice → ℕ
  cmov_u8 dst src choice = conditional_select dst src choice

  pub cmov_u32 : ℕ → ℕ → Choice → ℕ
  cmov_u32 dst src choice = conditional_select dst src choice

  pub cmov_u64 : ℕ → ℕ → Choice → ℕ
  cmov_u64 dst src choice = conditional_select dst src choice

  pub cmov_usize : ℕ → ℕ → Choice → ℕ
  unfolding wrapping_neg
  cmov_usize dst src choice =
      let mask = wrapping_neg 64 (unwrap_u8 choice) in bit_xor dst (bit_and (bit_xor dst src) mask)

  -- The loop runs over the shorter of the two.
  pub cmov_bytes : List ℕ → List ℕ → Choice → List ℕ
  cmov_bytes [] src choice = []
  cmov_bytes (d ∷ dst) [] choice = d ∷ dst
  cmov_bytes (d ∷ dst) (s ∷ src) choice = conditional_select d s choice ∷ cmov_bytes dst src choice
