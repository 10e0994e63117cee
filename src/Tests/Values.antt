-- ===== src/Tests/Values.antt =====
-- The pure parts at concrete inputs: sizes of the tree, schedule, position map, codecs, selection.
use oram.Base.{
  ℕ, ◌^◌, ◌<◌, ◌≤◌, ◌≡◌, ◌↔◌, ◌/◌, ◌-◌, ◌%◌, ◌+◌, refl, true, [], ◌∷◌, ◌==◌, if◌then◌else◌, arith,
}
use oram.Base.Words.{trailing_zeros, reverse_bits, is_power_of_two}
use oram.Outcome.{ok, err, stash_overflow}
use oram.Ct.Laws.{holds}
use oram.Params.{OramParams, with_leaves, node_index, path_nodes, leaf_bits}
use oram.Params.Geometry.{
  IsTree, node_index-parent, with_leaves-IsTree, node_index-eq_iff, path_nodes-Ascends, Ascends,
}
use oram.Schedule.{
  CircuitEvictionSchedule, reverse_bits_mod, eviction_leaf_at, pending_evictions, record_access,
}
use oram.Schedule.Debt.{IsConsistent, owed, record_access_lem}
use oram.Schedule.Rotation.{
  reverse_bits_mod_lem, eviction_leaf_at_reached, eviction_leaf_at_distinct,
}
use oram.Block.{OramBlock}
use oram.Block
use oram.PosMap.{
  scan_pos_map_lookup, scan_pos_map_update, scan_pos_map_lookup_batch, scan_pos_map_update_batch,
  batch_access_leaves,
}
use oram.PosMap.Laws.{lookup-update}
use oram.PosMap.Batch.{
  update_in_turn, leaves_in_turn, scan_pos_map_update_batch_lem, batch_access_leaves_lem,
}
use oram.Stash.{insert_into_stash, insert_candidate_into_stash}
use oram.Stash.Laws.{
  place, has_free, candidate_block, insert_into_stash_lem, insert_candidate_into_stash_lem,
}
use oram.Tests.Fixtures.{bool_subtle, small, block_of}

pub small-IsTree : IsTree small
unfolding leaf_bits trailing_zeros
small-IsTree = record { leaves_pow = refl; two_le_leaves = omega arith; leaves_fit = omega arith }

small-leaf_bits : leaf_bits small ≡ 1
unfolding leaf_bits trailing_zeros
small-leaf_bits = refl

node_index-parent_example : (node_index small 1 1 - 1) / 2 ≡ node_index small 0 1
node_index-parent_example =
    node_index-parent 0 1 small-IsTree (omega (arith, small-leaf_bits)) (omega arith)

path_nodes-Ascends_example : Ascends (path_nodes small 1)
path_nodes-Ascends_example = path_nodes-Ascends 1 small-IsTree (omega arith)

node_index-eq_iff_example :
    (node_index small 0 0 ≡ node_index small 0 1)
    ↔ (0 / 2 ^ (leaf_bits small - 0) ≡ 1 / 2 ^ (leaf_bits small - 0))
node_index-eq_iff_example =
    node_index-eq_iff 0 0 1 small-IsTree (omega (arith, small-leaf_bits)) (omega arith)
      (omega arith)

abbrev pub busy : CircuitEvictionSchedule
busy = record {
  leaf_bits = 1;
  evictions_per_access = 2;
  issued_accesses = 3;
  completed_evictions = 1;
}

pub busy-IsConsistent : IsConsistent busy
busy-IsConsistent = record {
  scheduled_fits = omega arith;
  not_ahead = omega arith;
  issued_fits = omega arith;
}

record_access_lem_example :
    ((record_access busy).0 ≡ ok tt)
    × IsConsistent ((record_access busy).1)
    × (owed ((record_access busy).1) ≡ owed busy + 2)
record_access_lem_example = record_access_lem busy busy-IsConsistent (omega arith) (omega arith)

reverse_bits_mod_lem_example : reverse_bits_mod 6 3 ≡ reverse_bits 3 (6 % 2 ^ 3)
reverse_bits_mod_lem_example = reverse_bits_mod_lem 6 3 (omega arith) (omega arith)

eviction_leaf_at_reached_example : (i : ℕ) × (5 ≤ i) × (i < 5 + 2) × (eviction_leaf_at small i ≡ 1)
eviction_leaf_at_reached_example = eviction_leaf_at_reached 5 1 small-IsTree (omega arith)

eviction_leaf_at_distinct_example : let six : ℕ = 6 in six ≡ six
eviction_leaf_at_distinct_example =
    eviction_leaf_at_distinct 5 6 6 small-IsTree (omega arith) (omega arith) (omega arith)
      (omega arith) refl

lookup-update_example :
    scan_pos_map_lookup bool_subtle (scan_pos_map_update bool_subtle (4 ∷ 5 ∷ []) 1 9) 1
    ≡ (if 1 == 1 then 9 else scan_pos_map_lookup bool_subtle (4 ∷ 5 ∷ []) 1)
lookup-update_example = lookup-update bool_subtle (4 ∷ 5 ∷ []) 1 1 9 (omega arith)

scan_pos_map_update_batch_lem_example :
    scan_pos_map_update_batch bool_subtle (4 ∷ 5 ∷ []) (1 ∷ 1 ∷ []) (7 ∷ 8 ∷ [])
    ≡ update_in_turn bool_subtle (4 ∷ 5 ∷ []) (1 ∷ 1 ∷ []) (7 ∷ 8 ∷ [])
scan_pos_map_update_batch_lem_example =
    scan_pos_map_update_batch_lem bool_subtle (4 ∷ 5 ∷ []) (1 ∷ 1 ∷ []) (7 ∷ 8 ∷ []) refl

batch_access_leaves_lem_example :
    batch_access_leaves bool_subtle
      (1 ∷ 1 ∷ [])
      (scan_pos_map_lookup_batch bool_subtle (4 ∷ 5 ∷ []) (1 ∷ 1 ∷ []))
      (7 ∷ 8 ∷ [])
    ≡ leaves_in_turn bool_subtle (4 ∷ 5 ∷ []) (1 ∷ 1 ∷ []) (7 ∷ 8 ∷ [])
batch_access_leaves_lem_example =
    batch_access_leaves_lem bool_subtle (4 ∷ 5 ∷ []) (1 ∷ 1 ∷ []) (7 ∷ 8 ∷ [])
      (omega arith, (omega arith, tt)) refl

insert_into_stash_lem_example :
    insert_into_stash bool_subtle small (block_of 0 7) (Block.dummy 1 ∷ []) ≡ (
      if true
      then (if has_free (Block.dummy 1 ∷ [])
          then (ok tt, place (block_of 0 7) (Block.dummy 1 ∷ []))
          else (err (stash_overflow 2 1), Block.dummy 1 ∷ []))
      else (ok tt, Block.dummy 1 ∷ []))
unfolding Block.dummy
insert_into_stash_lem_example =
    insert_into_stash_lem bool_subtle small (block_of 0 7) (Block.dummy 1 ∷ []) (refl, tt)

insert_candidate_into_stash_lem_example :
    insert_candidate_into_stash bool_subtle small
      (record { occupied = true; logical_id = 0; leaf = 1 })
      (7 ∷ [])
      true
      (Block.dummy 1 ∷ [])
    ≡ (if holds bool_subtle true
        then (if has_free (Block.dummy 1 ∷ [])
            then (
              ok tt,
              place
                  (candidate_block (record { occupied = true; logical_id = 0; leaf = 1 }) (7 ∷ []))
                  (Block.dummy 1 ∷ []),
            )
            else (err (stash_overflow 2 1), Block.dummy 1 ∷ []))
        else (ok tt, Block.dummy 1 ∷ []))
unfolding Block.dummy
insert_candidate_into_stash_lem_example =
    insert_candidate_into_stash_lem bool_subtle small
      (record { occupied = true; logical_id = 0; leaf = 1 }) (7 ∷ []) true (Block.dummy 1 ∷ []) refl
      (refl, tt)

busy_pending : pending_evictions busy ≡ ok 5
unfolding pending_evictions
busy_pending = refl

abbrev tree_of : ℕ → ℕ → ℕ → OramParams
tree_of logical_blocks block_size leaves = record {
  logical_blocks = logical_blocks;
  block_size = block_size;
  bucket_size = 4;
  leaves = leaves;
  stash_capacity = 512;
}

tree_made : with_leaves 2 8 4 ≡ ok (tree_of 2 8 4)
unfolding with_leaves is_power_of_two trailing_zeros
tree_made = refl

with_leaves-IsTree_example :
    IsTree (tree_of 2 8 4)
    × ((tree_of 2 8 4).leaves ≡ 4)
    × (0 < (tree_of 2 8 4).logical_blocks)
    × (0 < (tree_of 2 8 4).block_size)
    × (0 < (tree_of 2 8 4).bucket_size)
with_leaves-IsTree_example = with_leaves-IsTree 2 8 4 tree_made
