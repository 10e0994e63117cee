-- ===== src/Merkle/Tree.antt =====
-- src/merkle.rs, `MerklePageStore`: the tree of hashes, in the order of a heap, with the loops that
-- fill it and that rehash the nodes above a leaf.
pub mod Refine
pub mod Fill
use oram.Base.{ℕ, zero, suc, ◌+◌, ◌*◌, ◌/◌, List, ltb, if◌then◌else◌}
use oram.Outcome.{Result, ok, err, panicked, index, ◌>>=◌}
use oram.Merkle.{Hash, Sha256, hash_node, set_at}

module _ (sha : Sha256) where
  -- `hashes[node] = hash_node(node, hashes[node * 2], hashes[node * 2 + 1])`
  pub rehash : ℕ → List Hash → Result (List Hash)
  rehash node hashes = index hashes (node * 2) >>= λ left.
      index hashes (node * 2 + 1) >>= λ right. set_at hashes node (hash_node sha node left right)

  -- The loop of `update_leaf`: the node halves until it is the root.
  update_up : ℕ → ℕ → List Hash → Result (List Hash)
  unfolding rehash
  update_up zero node hashes = err panicked
  update_up (suc fuel) node hashes =
      let rest = rehash (node / 2) hashes >>= update_up fuel (node / 2) in
      if ltb 1 node then rest else ok hashes

  -- The node itself is fuel enough.
  pub update_leaf : ℕ → Hash → List Hash → Result (List Hash)
  unfolding update_up
  update_leaf slot leaf_hash hashes = set_at hashes slot leaf_hash >>= update_up (suc slot) slot

  -- The loop of `new` over the inner nodes: from `n` down to the root.
  pub hash_nodes : ℕ → List Hash → Result (List Hash)
  unfolding rehash
  hash_nodes zero hashes = ok hashes
  hash_nodes (suc n) hashes = rehash (suc n) hashes >>= hash_nodes n
