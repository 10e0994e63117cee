-- ===== src/Merkle/Tiered/Open.antt =====
-- src/merkle.rs, `TieredMerklePageStore`: a store is built over the pages there are, or reopened from
-- a trusted state; what it says of itself.
use oram.Base.{ℕ, ◌-◌, ◌*◌, ◌||◌, not, List, length, replicate, ltb, ◌==◌}
use oram.Outcome.{Result, ok, err, invalid_input, index, reject_if, ◌>>=◌, ◌>>◌}
use oram.Store.Operations.{PageOperations}
use oram.Merkle.{
  Hash, Sha256, leaf_base_for_page_count, trusted_node_limit, hashes_per_page, disk_hash_nodes,
  pages_for_hash_nodes,
}
use oram.Merkle.Tiered.{TieredMerklePageStore, TieredMerkleState}
use oram.Merkle.Tiered.Rebuild.{rebuild_hashes}

module _ (S H : PageOperations) where
  pub root : TieredMerklePageStore S H → Result Hash
  root s = index s.trusted_hashes 1

  pub trusted_hash_bytes : TieredMerklePageStore S H → ℕ
  trusted_hash_bytes s = (s.trusted_node_limit - 1) * 32

  unfoldable pub trusted_state : TieredMerklePageStore S H → TieredMerkleState
  trusted_state s = record {
    store_id = s.store_id;
    page_count = s.page_count;
    page_size = s.page_size;
    trusted_levels = s.trusted_levels;
    hash_page_size = H.page_size s.hash_store;
    trusted_hashes = s.trusted_hashes;
  }

  unfoldable pub from_trusted_state :
      S.State → H.State → TieredMerkleState → Result (TieredMerklePageStore S H)
  from_trusted_state inner hash_store state =
      let page_count = S.page_count inner in
      let page_size = S.page_size inner in
      do
        reject_if (not (page_count == state.page_count)) invalid_input
        reject_if (not (page_size == state.page_size)) invalid_input
        reject_if (not (H.page_size hash_store == state.hash_page_size)) invalid_input
        leaf_base ← leaf_base_for_page_count page_count
        limit ← trusted_node_limit leaf_base state.trusted_levels
        reject_if (not (length state.trusted_hashes == limit)) invalid_input
        per_page ← hashes_per_page (H.page_size hash_store)
        reject_if
            (ltb (H.page_count hash_store)
              (pages_for_hash_nodes (disk_hash_nodes leaf_base limit) per_page))
            invalid_input
        ok (record {
          inner = inner;
          hash_store = hash_store;
          store_id = state.store_id;
          page_size = page_size;
          page_count = page_count;
          leaf_base = leaf_base;
          trusted_levels = state.trusted_levels;
          trusted_node_limit = limit;
          hashes_per_page = per_page;
          disk_hash_nodes = disk_hash_nodes leaf_base limit;
          trusted_hashes = state.trusted_hashes;
        })

  -- The store that a method leaves when it succeeds.
  left_by : {T : Type 0} → Result (Unit {0}) × T → Result T
  left_by (ok done, s) = ok s
  left_by (err e, s) = err e

  pub build : Sha256 → S.State → H.State → List ℕ → ℕ → Result (TieredMerklePageStore S H)
  unfolding left_by
  build sha inner hash_store store_id trusted_levels =
      let page_count = S.page_count inner in
      let page_size = S.page_size inner in
      do
        reject_if (page_count == 0 || page_size == 0) invalid_input
        leaf_base ← leaf_base_for_page_count page_count
        limit ← trusted_node_limit leaf_base trusted_levels
        per_page ← hashes_per_page (H.page_size hash_store)
        reject_if
            (ltb (H.page_count hash_store)
              (pages_for_hash_nodes (disk_hash_nodes leaf_base limit) per_page))
            invalid_input
        left_by (
            rebuild_hashes sha S H (record {
              inner = inner;
              hash_store = hash_store;
              store_id = store_id;
              page_size = page_size;
              page_count = page_count;
              leaf_base = leaf_base;
              trusted_levels = trusted_levels;
              trusted_node_limit = limit;
              hashes_per_page = per_page;
              disk_hash_nodes = disk_hash_nodes leaf_base limit;
              trusted_hashes = replicate limit (replicate 32 0);
            }))
