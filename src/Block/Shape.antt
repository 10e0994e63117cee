-- ===== src/Block/Shape.antt =====
-- Blocks whose fields are what the types of src/block.rs make them: words, and bytes of one length.
use oram.Base.{ℕ, ◌^◌, ◌<◌, ◌≡◌, length, All-replicate, length-replicate, arith}
use oram.Base.Bytes.{IsByte, IsBytes}
use oram.Block.{OramBlock, dummy}

pub record IsBlock (block_size : ℕ) (b : OramBlock) : Type 0 where
  pub sized : length b.payload ≡ block_size
  pub bytes : IsBytes b.payload
  pub id_fits : b.logical_id < 2 ^ 64
  pub leaf_fits : b.leaf < 2 ^ 32

pub dummy-IsBlock : (n : ℕ) → IsBlock n (dummy n)
unfolding dummy
dummy-IsBlock n = record {
  sized = length-replicate n 0;
  bytes = All-replicate IsByte n 0 (omega arith);
  id_fits = omega arith;
  leaf_fits = omega arith;
}
