-- ===== src/PosMap.antt =====
-- src/circuit.rs: the position map, looked up and changed by scans over all of it.
pub mod Laws
pub mod Batch
use oram.Base.{ℕ, zero, suc, List, [], ◌∷◌, length, replicate, get_or, take}
use oram.Ct.{Subtle, eq_u64, cmov_u32}

module _ (S : Subtle) where
  -- The loop of `scan_pos_map_lookup` from index `idx` on.
  lookup_from : ℕ → List ℕ → ℕ → ℕ → ℕ
  lookup_from idx [] logical_id leaf = leaf
  lookup_from idx (candidate_leaf ∷ rest) logical_id leaf =
      let matched = eq_u64 S idx logical_id in
      lookup_from (suc idx) rest logical_id (cmov_u32 S leaf candidate_leaf matched)

  pub scan_pos_map_lookup : List ℕ → ℕ → ℕ
  unfolding lookup_from
  scan_pos_map_lookup pos_map logical_id = lookup_from 0 pos_map logical_id 0

  update_from : ℕ → List ℕ → ℕ → ℕ → List ℕ
  update_from idx [] logical_id new_leaf = []
  update_from idx (leaf ∷ rest) logical_id new_leaf =
      cmov_u32 S leaf new_leaf (eq_u64 S idx logical_id)
      ∷ update_from (suc idx) rest logical_id new_leaf

  pub scan_pos_map_update : List ℕ → ℕ → ℕ → List ℕ
  unfolding update_from
  scan_pos_map_update pos_map logical_id new_leaf = update_from 0 pos_map logical_id new_leaf

  -- The inner loop of `scan_pos_map_lookup_batch`, at one index of the map.
  match_all : ℕ → ℕ → List ℕ → List ℕ → List ℕ
  match_all idx candidate_leaf [] leaves = leaves
  match_all idx candidate_leaf (id ∷ ids) [] = []
  match_all idx candidate_leaf (id ∷ ids) (leaf ∷ leaves) =
      cmov_u32 S leaf candidate_leaf (eq_u64 S idx id) ∷ match_all idx candidate_leaf ids leaves

  lookup_batch_from : ℕ → List ℕ → List ℕ → List ℕ → List ℕ
  lookup_batch_from idx [] logical_ids leaves = leaves
  lookup_batch_from idx (candidate_leaf ∷ rest) logical_ids leaves =
      lookup_batch_from (suc idx) rest logical_ids (match_all idx candidate_leaf logical_ids leaves)

  pub scan_pos_map_lookup_batch : List ℕ → List ℕ → List ℕ
  unfolding lookup_batch_from match_all
  scan_pos_map_lookup_batch pos_map logical_ids =
      lookup_batch_from 0 pos_map logical_ids (replicate (length logical_ids) 0)

  -- The inner loop of `scan_pos_map_update_batch`: the last match wins.
  last_match : ℕ → ℕ → List ℕ → List ℕ → ℕ
  last_match idx leaf [] new_leaves = leaf
  last_match idx leaf (id ∷ ids) [] = leaf
  last_match idx leaf (id ∷ ids) (new_leaf ∷ new_leaves) =
      last_match idx (cmov_u32 S leaf new_leaf (eq_u64 S idx id)) ids new_leaves

  update_batch_from : ℕ → List ℕ → List ℕ → List ℕ → List ℕ
  update_batch_from idx [] logical_ids new_leaves = []
  update_batch_from idx (leaf ∷ rest) logical_ids new_leaves =
      last_match idx leaf logical_ids new_leaves
      ∷ update_batch_from (suc idx) rest logical_ids new_leaves

  -- The source asserts, in a debug build, that there are as many leaves as ids.
  pub scan_pos_map_update_batch : List ℕ → List ℕ → List ℕ → List ℕ
  unfolding update_batch_from last_match
  scan_pos_map_update_batch pos_map logical_ids new_leaves =
      update_batch_from 0 pos_map logical_ids new_leaves

  -- The inner loop of `batch_access_leaves`: over the positions j before the i-th.
  repeated_leaf : ℕ → List ℕ → List ℕ → ℕ → ℕ
  repeated_leaf id [] new_leaves leaf = leaf
  repeated_leaf id (earlier ∷ ids) [] leaf = leaf
  repeated_leaf id (earlier ∷ ids) (new_leaf ∷ new_leaves) leaf =
      repeated_leaf id ids new_leaves (cmov_u32 S leaf new_leaf (eq_u64 S id earlier))

  batch_leaves_from : ℕ → List ℕ → List ℕ → List ℕ → List ℕ
  batch_leaves_from i logical_ids [] new_leaves = []
  batch_leaves_from i logical_ids (old_leaf ∷ old_leaves) new_leaves =
      repeated_leaf (get_or logical_ids i 0) (take i logical_ids) (take i new_leaves) old_leaf
      ∷ batch_leaves_from (suc i) logical_ids old_leaves new_leaves

  -- The loop over i starts with `access_leaves = old_leaves`, and its three lists have one length.
  pub batch_access_leaves : List ℕ → List ℕ → List ℕ → List ℕ
  unfolding batch_leaves_from repeated_leaf
  batch_access_leaves logical_ids old_leaves new_leaves =
      batch_leaves_from 0 logical_ids old_leaves new_leaves
