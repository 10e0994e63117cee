-- ===== src/Meta/Laws.antt =====
-- src/circuit.rs: what the branchless operations on a metadata slot compute.
use oram.Base.{ℕ, ◌≡◌, Bool, ◌&&◌, ◌==◌, if◌then◌else◌, arith, bit}
use oram.Ct.{Subtle, choice_from_bool, eq_u64}
use oram.Ct.Laws.{
  holds, holds-and, holds-choice_from_bool, holds-eq_u64, cmov_u8_lem, cmov_u32_lem, cmov_u64_lem,
}
use oram.Block.{u64_max, u32_max}
use oram.Meta.{CircuitMetaSlot, dummy, logical_id_choice, cmov_from, clear_if}

-- Whether a slot is real and holds `logical_id`.
abbrev pub holds_id : CircuitMetaSlot → ℕ → Bool
holds_id s logical_id = s.occupied && s.logical_id == logical_id

module _ (S : Subtle) where
  open S use {Choice}

  pub logical_id_choice_lem :
      (s : CircuitMetaSlot) (id : ℕ) → holds S (logical_id_choice S s id) ≡ holds_id s id
  unfolding logical_id_choice
  logical_id_choice_lem s id = ground (
    arith,
    holds-and S (choice_from_bool S s.occupied) (eq_u64 S s.logical_id id),
    holds-choice_from_bool S s.occupied,
    holds-eq_u64 S s.logical_id id,
  )

  pub cmov_from_lem :
      (s other : CircuitMetaSlot) (c : Choice)
      → cmov_from S s other c ≡ (if holds S c then other else s)
  unfolding cmov_from
  cmov_from_lem s other c = ground (
    arith,
    cmov_u8_lem S (bit s.occupied) (bit other.occupied) c,
    cmov_u64_lem S s.logical_id other.logical_id c,
    cmov_u32_lem S s.leaf other.leaf c,
  )

  pub clear_if_lem :
      (s : CircuitMetaSlot) (c : Choice) → clear_if S s c ≡ (if holds S c then dummy else s)
  unfolding clear_if dummy
  clear_if_lem s c = ground (
    arith,
    cmov_u8_lem S (bit s.occupied) 0 c,
    cmov_u64_lem S s.logical_id u64_max c,
    cmov_u32_lem S s.leaf u32_max c,
  )
