-- ===== src/Params.antt =====
-- src/params.rs: the public sizes of the tree, and the path from the root to a leaf.
pub mod Geometry
use oram.Base.{
  ℕ, ◌+◌, ◌-◌, ◌*◌, ◌/◌, ◌%◌, ◌^◌, ◌≤◌, ◌<◌, max, bit_and, Bool, ◌||◌, not, List, map, ltb, ◌==◌,
  if◌then◌else◌, range_from,
}
use oram.Base.Words.{
  trailing_zeros, is_power_of_two, next_power_of_two, wrapping_shl, wrapping_shr, wrapping_sub,
}
use oram.Outcome.{Result, ok, err, invalid_params, ◌>>=◌, ◌>>◌, reject_if}

pub record OramParams : Type 0 where
  pub logical_blocks : ℕ
  pub block_size : ℕ
  pub bucket_size : ℕ
  pub leaves : ℕ
  pub stash_capacity : ℕ

unfoldable pub with_leaves : ℕ → ℕ → ℕ → Result OramParams
with_leaves logical_blocks block_size leaves = do
  reject_if (logical_blocks == 0) invalid_params
  reject_if (block_size == 0) invalid_params
  reject_if (not (is_power_of_two leaves) || ltb leaves 2) invalid_params
  reject_if (ltb (2 ^ 32 - 1) leaves) invalid_params
  ok (record {
    logical_blocks = logical_blocks;
    block_size = block_size;
    bucket_size = 4;
    leaves = leaves;
    stash_capacity = 512;
  })

pub new : ℕ → ℕ → Result OramParams
new logical_blocks block_size =
    with_leaves logical_blocks block_size (next_power_of_two (max logical_blocks 2))

-- `usize::trailing_zeros`
unfoldable pub leaf_bits : OramParams → ℕ
leaf_bits p = trailing_zeros 64 p.leaves

unfoldable pub height : OramParams → ℕ
height p = leaf_bits p + 1

pub with_bucket_size : OramParams → ℕ → Result OramParams
with_bucket_size p bucket_size = do
  reject_if (bucket_size == 0) invalid_params
  ok (record p { bucket_size = bucket_size })

pub with_stash_capacity : OramParams → ℕ → Result OramParams
with_stash_capacity p stash_capacity = do
  reject_if (ltb stash_capacity (p.bucket_size * height p % 2 ^ 64)) invalid_params
  ok (record p { stash_capacity = stash_capacity })

unfoldable pub bucket_count : OramParams → ℕ
bucket_count p = p.leaves * 2 - 1

-- The heap index of the node over `leaf` at `depth`. The source asserts, in a debug build, that
-- the depth is below the height and the leaf below `leaves`.
unfoldable pub node_index : OramParams → ℕ → ℕ → ℕ
node_index p depth leaf =
    let level_offset = wrapping_shl 1 depth - 1 in
    let shift = wrapping_sub (leaf_bits p) depth in
    if depth == 0
    then level_offset
    else level_offset + bit_and (wrapping_shr leaf shift) (wrapping_shl 1 depth - 1)

unfoldable pub path_nodes : OramParams → ℕ → List ℕ
path_nodes p leaf = map (λ depth. node_index p depth leaf) (range_from 0 (height p))

pub node_contains_leaf : OramParams → ℕ → ℕ → ℕ → Bool
node_contains_leaf p depth node_idx leaf = node_index p depth leaf == node_idx
