-- ===== src/Block/Laws.antt =====
-- src/block.rs: what the branchless operations on a block compute.
use oram.Base.{
  ℕ, ◌-◌, ◌<◌, ◌≡◌, refl, ap, ap₂, ◌∙◌, Bool, true, false, ◌&&◌, List, [], ◌∷◌, map, length,
  replicate, All, ◌==◌, if◌then◌else◌, arith, inl, inr, Bool-cases, bit_and,
}
use oram.Base.Bytes.{IsBytes}
use oram.Ct
use oram.Block
use oram.Base
use oram.Ct.{Subtle, mask8}
use oram.Ct.Laws.{
  holds, holds-and, holds-choice_from_bool, holds-eq_u64, cmov_u8_lem, cmov_u32_lem, cmov_u64_lem,
  cmov_bytes_lem, keep_mask_lem,
}
use oram.Block.{OramBlock, dummy, logical_id_choice, cmov_from, clear_if, clear_payload_volatile_if}

-- Whether a block is real and holds `logical_id`.
abbrev pub holds_id : OramBlock → ℕ → Bool
holds_id b logical_id = b.occupied && b.logical_id == logical_id

module _ (S : Subtle) where
  open S use {Choice}

  pub logical_id_choice_lem :
      (b : OramBlock) (id : ℕ) → holds S (logical_id_choice S b id) ≡ holds_id b id
  unfolding logical_id_choice
  logical_id_choice_lem b id = ground (
    arith,
    holds-and S (Ct.choice_from_bool S b.occupied) (Ct.eq_u64 S b.logical_id id),
    holds-choice_from_bool S b.occupied,
    holds-eq_u64 S b.logical_id id,
  )

  -- The conditional assignment takes all of the other block, or nothing of it.
  pub cmov_from_lem :
      (b other : OramBlock) (c : Choice)
      → length b.payload ≡ length other.payload
      → cmov_from S b other c ≡ (if holds S c then other else b)
  unfolding cmov_from
  cmov_from_lem b other c e = ground (
    arith,
    cmov_u8_lem S (Base.bit b.occupied) (Base.bit other.occupied) c,
    cmov_u64_lem S b.logical_id other.logical_id c,
    cmov_u32_lem S b.leaf other.leaf c,
    cmov_bytes_lem S b.payload other.payload c e,
  )

  -- The masked clear leaves zeros, or the payload as it was.
  pub clear_payload_lem :
      (payload : List ℕ) (c : Choice)
      → IsBytes payload
      → clear_payload_volatile_if S payload c
        ≡ (if holds S c then replicate (length payload) 0 else payload)
  unfolding clear_payload_volatile_if
  clear_payload_lem [] c h = ground arith
  clear_payload_lem (x ∷ xs) c h =
      ground (arith, keep_mask_lem S x c h.0, clear_payload_lem xs c h.1)

  -- On a block whose payload consists of bytes, the masked clear gives the dummy block when chosen
  -- and the same block otherwise.
  pub clear_if_lem :
      (b : OramBlock) (c : Choice)
      → IsBytes b.payload
      → clear_if S b c ≡ (if holds S c then dummy (length b.payload) else b)
  unfolding clear_if dummy
  clear_if_lem b c h = ground (
    arith,
    cmov_u8_lem S (Base.bit b.occupied) 0 c,
    cmov_u64_lem S b.logical_id Block.u64_max c,
    cmov_u32_lem S b.leaf Block.u32_max c,
    clear_payload_lem b.payload c h,
  )
