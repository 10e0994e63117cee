-- ===== src/Merkle/Full.antt =====
-- src/merkle.rs, `MerklePageStore`: the whole tree in trusted memory. The node numbers are those of a
-- heap: 1 is the root, `leaf_base` is the first leaf.
pub mod Sealed
pub mod Pages
pub mod Build
use oram.Base.{
  ℕ, zero, suc, ◌+◌, ◌-◌, ◌*◌, ◌/◌, ◌%◌, ◌^◌, ◌≡◌, Bool, ◌||◌, not, List, [], ◌∷◌, length,
  replicate, ltb, leb, ◌==◌, if◌then◌else◌,
}
use oram.Outcome.{Result, invalid_input, index, reject_if}
use oram.Outcome.Stateful.{M, pure, lift, get, put, ◌>>=◌, ◌>>◌}
use oram.Store.{Page}
use oram.Store.Mem.{check_page}
use oram.Store.Operations.{PageOperations}
use oram.Merkle.{
  Hash, Sha256, hash_leaf, hash_empty_leaf, hash_eq, leaf_base_for_page_count, set_at,
}
use oram.Merkle.Tree.{update_leaf, hash_nodes}

pub record MerklePageStore (S : PageOperations) : Type 0 where
  pub inner : S.State
  pub store_id : List ℕ
  pub page_size : ℕ
  pub page_count : ℕ
  pub leaf_base : ℕ
  pub hashes : List Hash

module _ (sha : Sha256) where
  module _ (S : PageOperations) where
    -- The hash of one leaf and the buffer `page`, which the next read is given.
    pub leaf_hash : List ℕ → ℕ → ℕ → ℕ → Page → M S.State (Hash × Page)
    leaf_hash store_id page_count page_size page_idx page =
        if ltb page_idx page_count
        then (S.read_page page_idx page >>= λ page'.
            pure (hash_leaf sha store_id page_idx page', page'))
        else pure (hash_empty_leaf sha store_id page_idx page_size, page)

    -- The loop of `new` over the leaves: `n` of them, from `page_idx` on.
    pub hash_leaves : List ℕ → ℕ → ℕ → ℕ → ℕ → ℕ → Page → List Hash → M S.State (List Hash)
    unfolding leaf_hash
    hash_leaves store_id page_count page_size leaf_base zero page_idx page hashes = pure hashes
    hash_leaves store_id page_count page_size leaf_base (suc n) page_idx page hashes =
        leaf_hash store_id page_count page_size page_idx page >>= λ hashed.
        lift (set_at hashes (leaf_base + page_idx) (hashed.0)) >>= λ hashes'.
        hash_leaves store_id page_count page_size leaf_base n (suc page_idx) (hashed.1) hashes'

    pub new : List ℕ → M S.State (MerklePageStore S)
    unfolding hash_leaves
    new store_id inner =
        let page_count = S.page_count inner in
        let page_size = S.page_size inner in
        (lift (reject_if (page_count == 0 || page_size == 0) invalid_input)
            >> lift (leaf_base_for_page_count page_count)
            >>= λ leaf_base.
                hash_leaves store_id page_count page_size leaf_base leaf_base 0
                  (replicate page_size 0) (replicate (leaf_base * 2 % 2 ^ 64) (replicate 32 0))
                >>= λ leaves. lift (hash_nodes sha (leaf_base - 1) leaves) >>= λ hashes.
                    get >>= λ inner'. pure (record {
                      inner = inner';
                      store_id = store_id;
                      page_size = page_size;
                      page_count = page_count;
                      leaf_base = leaf_base;
                      hashes = hashes;
                    }))
          inner

    pub root : MerklePageStore S → Result Hash
    root s = index s.hashes 1

    pub trusted_hash_bytes : MerklePageStore S → ℕ
    trusted_hash_bytes s = (length s.hashes - 1) * 32

    -- A request to the inner store.
    pub on_inner : {A : Type 0} → M S.State A → M (MerklePageStore S) A
    on_inner m s = let (r, t) = m s.inner in (r, record s { inner = t })

    pub read_page : ℕ → Page → M (MerklePageStore S) Page
    unfolding on_inner
    read_page page_idx out = get >>= λ s.
        lift (check_page s.page_count s.page_size page_idx (length out))
        >> on_inner (S.read_page page_idx out)
        >>= λ page. lift (index s.hashes (s.leaf_base + page_idx)) >>= λ expected.
            lift (
              reject_if (not (hash_eq (hash_leaf sha s.store_id page_idx page) expected))
                invalid_input)
            >> pure page

    pub write_page : ℕ → Page → M (MerklePageStore S) (Unit {0})
    unfolding on_inner
    write_page page_idx input = get >>= λ s.
        lift (check_page s.page_count s.page_size page_idx (length input))
        >> on_inner (S.write_page page_idx input)
        >> (get >>= λ s'.
            lift (
              update_leaf sha (s'.leaf_base + page_idx) (hash_leaf sha s'.store_id page_idx input)
                s'.hashes)
            >>= λ hashes. put (record s' { hashes = hashes }))
