-- ===== src/Merkle/Tiered.antt =====
-- src/merkle.rs, `TieredMerklePageStore`: the top of the tree in trusted memory, the other hashes
-- packed into the pages of a second store. Neither store is trusted.
pub mod Rebuild
pub mod Open
pub mod Climb
pub mod Tamper
pub mod Packing
pub mod Held
pub mod Loops
pub mod Pages
pub mod Reopen
use oram.Base.{
  ℕ, zero, suc, ◌+◌, ◌-◌, ◌*◌, ◌/◌, ◌%◌, ◌^◌, Bool, ◌||◌, not, List, [], ◌∷◌, length, replicate,
  ltb, leb, ◌==◌, if◌then◌else◌,
}
use oram.Base.Words.{trailing_zeros}
use oram.Base.Bytes.{splice}
use oram.Outcome.{Result, ok, err, invalid_input, panicked, index, reject_if}
use oram.Outcome.Stateful.{M, pure, lift, get, put, ◌>>=◌, ◌>>◌}
use oram.Store.{Page}
use oram.Store.Mem.{check_page}
use oram.Store.Operations.{PageOperations}
use oram.Merkle.{
  Hash, Sha256, hash_leaf, hash_empty_leaf, hash_node, hash_eq, leaf_base_for_page_count,
  trusted_node_limit, hashes_per_page, disk_hash_nodes, pages_for_hash_nodes, sibling_node,
  is_left_child, set_at, slice_at, splice_at, check_node_idx, disk_hash_position,
}

pub record TieredMerklePageStore (S H : PageOperations) : Type 0 where
  pub inner : S.State
  pub hash_store : H.State
  pub store_id : List ℕ
  pub page_size : ℕ
  pub page_count : ℕ
  pub leaf_base : ℕ
  pub trusted_levels : ℕ
  pub trusted_node_limit : ℕ
  pub hashes_per_page : ℕ
  pub disk_hash_nodes : ℕ
  pub trusted_hashes : List Hash

pub record TieredMerkleState : Type 0 where
  pub store_id : List ℕ
  pub page_count : ℕ
  pub page_size : ℕ
  pub trusted_levels : ℕ
  pub hash_page_size : ℕ
  pub trusted_hashes : List Hash

module _ (sha : Sha256) (S H : PageOperations) where
  unfoldable pub on_inner : {A : Type 0} → M S.State A → M (TieredMerklePageStore S H) A
  on_inner m s = let (r, t) = m s.inner in (r, record s { inner = t })

  unfoldable pub on_hashes : {A : Type 0} → M H.State A → M (TieredMerklePageStore S H) A
  on_hashes m s = let (r, t) = m s.hash_store in (r, record s { hash_store = t })

  unfoldable pub read_disk_hash : ℕ → M (TieredMerklePageStore S H) Hash
  unfolding on_hashes
  read_disk_hash node_idx = get >>= λ s.
      lift (disk_hash_position s.trusted_node_limit s.disk_hash_nodes s.hashes_per_page node_idx)
      >>= λ position.
          on_hashes (H.read_page (position.0) (replicate (H.page_size s.hash_store) 0)) >>= λ page.
          lift (slice_at page (position.1) 32)

  unfoldable pub write_disk_hash : ℕ → Hash → M (TieredMerklePageStore S H) (Unit {0})
  unfolding on_hashes
  write_disk_hash node_idx hash = get >>= λ s.
      lift (disk_hash_position s.trusted_node_limit s.disk_hash_nodes s.hashes_per_page node_idx)
      >>= λ position.
          on_hashes (H.read_page (position.0) (replicate (H.page_size s.hash_store) 0)) >>= λ page.
          lift (splice_at page (position.1) hash) >>= λ page'.
          on_hashes (H.write_page (position.0) page')

  unfoldable pub read_hash : ℕ → M (TieredMerklePageStore S H) Hash
  unfolding read_disk_hash
  read_hash node_idx = get >>= λ s.
      lift (check_node_idx s.leaf_base node_idx)
      >> (if ltb node_idx s.trusted_node_limit
          then lift (index s.trusted_hashes node_idx)
          else read_disk_hash node_idx)

  unfoldable pub write_hash : ℕ → Hash → M (TieredMerklePageStore S H) (Unit {0})
  unfolding write_disk_hash
  write_hash node_idx hash = get >>= λ s.
      lift (check_node_idx s.leaf_base node_idx)
      >> (if ltb node_idx s.trusted_node_limit
          then (lift (set_at s.trusted_hashes node_idx hash) >>= λ hashes.
              put (record s { trusted_hashes = hashes }))
          else write_disk_hash node_idx hash)

  -- The hash of the parent, from the node's own and its sibling's.
  unfoldable pub hash_parent : ℕ → Hash → Hash → Hash
  hash_parent node_idx current sibling =
      if is_left_child node_idx
      then hash_node sha (node_idx / 2) current sibling
      else hash_node sha (node_idx / 2) sibling current

  -- The loop of `verify_page_hash`: up to the first trusted node, and the hash computed for it.
  unfoldable pub climb : ℕ → ℕ → Hash → M (TieredMerklePageStore S H) (ℕ × Hash)
  unfolding read_hash hash_parent
  climb zero node_idx current s = (err panicked, s)
  climb (suc fuel) node_idx current s =
      let rest =
        (read_hash (sibling_node node_idx) >>= λ sibling.
        climb fuel (node_idx / 2) (hash_parent node_idx current sibling))
          s in
      if leb s.trusted_node_limit node_idx then rest else (ok (node_idx, current), s)

  unfoldable pub verify_page_hash : ℕ → Hash → M (TieredMerklePageStore S H) (Unit {0})
  unfolding climb
  verify_page_hash page_idx leaf_hash = get >>= λ s.
      climb (suc (s.leaf_base + page_idx)) (s.leaf_base + page_idx) leaf_hash >>= λ top.
      get >>= λ s'. lift (index s'.trusted_hashes (top.0)) >>= λ trusted.
      lift (reject_if (not (hash_eq (top.1) trusted)) invalid_input)

  -- The loop of `update_page_hash`, to the root.
  unfoldable pub update_up : ℕ → ℕ → Hash → M (TieredMerklePageStore S H) (Unit {0})
  unfolding read_hash write_hash hash_parent
  update_up zero node_idx current s = (err panicked, s)
  update_up (suc fuel) node_idx current s =
      let rest =
        (read_hash (sibling_node node_idx) >>= λ sibling.
        write_hash (node_idx / 2) (hash_parent node_idx current sibling)
        >> update_up fuel (node_idx / 2) (hash_parent node_idx current sibling))
          s in
      if ltb 1 node_idx then rest else (ok tt, s)

  unfoldable pub update_page_hash : ℕ → Hash → M (TieredMerklePageStore S H) (Unit {0})
  unfolding write_hash update_up
  update_page_hash page_idx leaf_hash = get >>= λ s.
      write_hash (s.leaf_base + page_idx) leaf_hash
      >> update_up (suc (s.leaf_base + page_idx)) (s.leaf_base + page_idx) leaf_hash

  unfoldable pub read_page : ℕ → Page → M (TieredMerklePageStore S H) Page
  unfolding on_inner verify_page_hash
  read_page page_idx out = get >>= λ s.
      lift (check_page s.page_count s.page_size page_idx (length out))
      >> on_inner (S.read_page page_idx out)
      >>= λ page. get >>= λ s'.
          verify_page_hash page_idx (hash_leaf sha s'.store_id page_idx page) >> pure page

  unfoldable pub write_page : ℕ → Page → M (TieredMerklePageStore S H) (Unit {0})
  unfolding on_inner update_page_hash
  write_page page_idx input = get >>= λ s.
      lift (check_page s.page_count s.page_size page_idx (length input))
      >> on_inner (S.write_page page_idx input)
      >> get
      >>= λ s'. update_page_hash page_idx (hash_leaf sha s'.store_id page_idx input)
