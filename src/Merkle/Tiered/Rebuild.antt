-- ===== src/Merkle/Tiered/Rebuild.antt =====
-- src/merkle.rs, `TieredMerklePageStore`: `rebuild_hashes`: the tree over the pages there are.
use oram.Base.{ℕ, zero, suc, ◌+◌, ◌*◌, ◌^◌, replicate, ltb, if◌then◌else◌}
use oram.Base.Words.{trailing_zeros}
use oram.Outcome.Stateful.{M, pure, get, ◌>>=◌, ◌>>◌}
use oram.Store.{Page}
use oram.Store.Operations.{PageOperations}
use oram.Merkle.{Sha256, hash_leaf, hash_empty_leaf, hash_node}
use oram.Merkle.Tiered.{TieredMerklePageStore, on_inner, read_hash, write_hash}

module _ (sha : Sha256) (S H : PageOperations) where
  height : TieredMerklePageStore S H → ℕ
  height s = trailing_zeros 64 s.leaf_base

  -- The hash of one leaf and the buffer `page`, which the next read is given.
  rebuild_leaf : ℕ → Page → M (TieredMerklePageStore S H) Page
  rebuild_leaf page_idx page = get >>= λ s.
      if ltb page_idx s.page_count
      then (on_inner sha S H (S.read_page page_idx page) >>= λ page'.
          write_hash sha S H (s.leaf_base + page_idx) (hash_leaf sha s.store_id page_idx page')
          >> pure page')
      else (write_hash sha S H (s.leaf_base + page_idx)
            (hash_empty_leaf sha s.store_id page_idx s.page_size)
          >> pure page)

  -- The first loop of `rebuild_hashes`: `n` leaves from `page_idx` on.
  rebuild_leaves : ℕ → ℕ → Page → M (TieredMerklePageStore S H) (Unit {0})
  unfolding rebuild_leaf
  rebuild_leaves zero page_idx page = pure tt
  rebuild_leaves (suc n) page_idx page =
      rebuild_leaf page_idx page >>= rebuild_leaves n (suc page_idx)

  rebuild_node : ℕ → M (TieredMerklePageStore S H) (Unit {0})
  rebuild_node node_idx = read_hash sha S H (node_idx * 2) >>= λ left.
      read_hash sha S H (node_idx * 2 + 1) >>= λ right.
      write_hash sha S H node_idx (hash_node sha node_idx left right)

  -- One level: `n` nodes from `node_idx` on.
  rebuild_level : ℕ → ℕ → M (TieredMerklePageStore S H) (Unit {0})
  unfolding rebuild_node
  rebuild_level zero node_idx = pure tt
  rebuild_level (suc n) node_idx = rebuild_node node_idx >> rebuild_level n (suc node_idx)

  -- The levels above the leaves, from level `k - 1` up to the root.
  rebuild_levels : ℕ → M (TieredMerklePageStore S H) (Unit {0})
  unfolding rebuild_level
  rebuild_levels zero = pure tt
  rebuild_levels (suc k) = rebuild_level (2 ^ k) (2 ^ k) >> rebuild_levels k

  pub rebuild_hashes : M (TieredMerklePageStore S H) (Unit {0})
  unfolding rebuild_leaves rebuild_levels height
  rebuild_hashes = get >>= λ s.
      rebuild_leaves s.leaf_base 0 (replicate s.page_size 0) >> rebuild_levels (height s)
