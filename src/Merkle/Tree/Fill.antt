-- ===== src/Merkle/Tree/Fill.antt =====
-- src/merkle.rs, `MerklePageStore::new`: the loop over the inner nodes makes a tree over the leaves
-- that it finds.
use oram.Base.{
  ℕ, zero, suc, ◌+◌, ◌*◌, ◌≤◌, ◌<◌, ◌≡◌, refl, sym, ap, ◌∙◌, List, length, update, update-ne,
  Bool-cases, inl, inr, ◌==◌, ==→eq, ==→ne, arith, subst,
}
use oram.Outcome.{Result, ok, ◌>>=◌}
use oram.Merkle.{Hash, Sha256, hash_node}
use oram.Merkle.Hashes.{length-hash_node}
use oram.Merkle.Commit.{AllSized, Holds, Holds-update, Holds_rehashed, update_sized}
use oram.Merkle.Tree.{hash_nodes}
use oram.Merkle.Tree.Refine.{hash_fn, rehash_lem}

module _ (sha : Sha256) (leaf_base : ℕ) where
  -- All inner nodes hold, over the leaves of `h`.
  pub record Grown (h : ℕ → Hash) (r : Result (List Hash)) : Type 0 where
    pub hashes : List Hash
    pub result_is : r ≡ ok hashes
    pub size_is : length hashes ≡ leaf_base * 2
    pub holds : (m : ℕ) → 0 < m → m < leaf_base → Holds sha leaf_base (hash_fn hashes) m
    pub leaves_kept : (m : ℕ) → leaf_base ≤ m → hash_fn hashes m ≡ h m
    pub sized : AllSized leaf_base (hash_fn hashes)

  -- The inner nodes above `n` hold.
  abbrev HoldAbove : ℕ → (ℕ → Hash) → Type 0
  HoldAbove n h = (m : ℕ) → n < m → m < leaf_base → Holds sha leaf_base h m

  HoldAbove-update :
      (h : ℕ → Hash) (n : ℕ)
      → HoldAbove (suc n) h
      → HoldAbove n (update h (suc n) (hash_node sha (suc n) (h (suc n * 2)) (h (suc n * 2 + 1))))
  HoldAbove-update h n above m lt top = elim (Bool-cases (suc n == m)) [
    | inl t ↦
        subst
          (Holds sha leaf_base
            (update h (suc n) (hash_node sha (suc n) (h (suc n * 2)) (h (suc n * 2 + 1)))))
          (==→eq (suc n) m t) (Holds_rehashed sha leaf_base h (suc n) (omega arith))
    | inr t ↦
        let ne = ==→ne (suc n) m t in
        Holds-update sha leaf_base h (suc n) m _ (above m (omega (arith, ne, lt)) top)
          (λ e. ne (sym e)) (omega (arith, lt))
  ]

  pub hash_nodes_lem :
      (n : ℕ) (hashes : List Hash)
      → n < leaf_base
      → length hashes ≡ leaf_base * 2
      → HoldAbove n (hash_fn hashes)
      → AllSized leaf_base (hash_fn hashes)
      → Grown (hash_fn hashes) (hash_nodes sha n hashes)
  unfolding hash_nodes
  hash_nodes_lem zero hashes lt e above sized = record {
    hashes = hashes;
    result_is = refl;
    size_is = e;
    holds = above;
    leaves_kept = λ m le. refl;
    sized = sized;
  }
  hash_nodes_lem (suc n) hashes lt e above sized =
      let one = rehash_lem sha leaf_base (suc n) hashes e lt in
      let rest =
        hash_nodes_lem n one.hashes (omega arith) one.sized
          (subst (HoldAbove n) (sym one.reads) (HoldAbove-update (hash_fn hashes) n above))
          (subst (AllSized leaf_base) (sym one.reads) (
            update_sized sha leaf_base (hash_fn hashes) (suc n) _ sized
              (length-hash_node sha (suc n) _ _))) in
      record {
        hashes = rest.hashes;
        result_is = ap (λ r. r >>= hash_nodes sha n) one.result_is ∙ rest.result_is;
        size_is = rest.size_is;
        holds = rest.holds;
        leaves_kept = λ m le.
            rest.leaves_kept m le
            ∙ (ap (λ f. f m) one.reads
                ∙ update-ne (hash_fn hashes) (suc n) _ m (omega (arith, lt, le)));
        sized = rest.sized;
      }
