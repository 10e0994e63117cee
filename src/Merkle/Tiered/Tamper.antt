-- ===== src/Merkle/Tiered/Tamper.antt =====
-- src/merkle.rs, `TieredMerklePageStore`: what a read returns when both stores answer as they like.
use oram.Base.{ℕ, suc, ◌+◌, ◌≤◌, ◌<◌, ◌≡◌, sym, ◌∙◌, ◌⊎◌, inl, inr, length, arith}
use oram.Outcome.{ok, index, reject_if}
use oram.Outcome.Yields.{Yields, Yields-ok, Yields-end, Yields-continue, Yields-lift, Yields-weaken}
use oram.Store.{Page}
use oram.Store.Mem.{check_page}
use oram.Store.Mem.Laws.{check_page_passed}
use oram.Store.Operations.{PageOperations}
use oram.Merkle.{Hash, Sha256, hash_leaf}
use oram.Merkle.Hashes.{Collision, hash_leaf_page, hash_eq→eq, passes, length-hash_leaf}
use oram.Merkle.Tiered.{TieredMerklePageStore, verify_page_hash, read_page}
use oram.Merkle.Tiered.Climb.{Trusted, on_inner_yields, climb_yields}
use oram.Merkle.Commit.{IsTree}

-- What the trusted part of a store commits to: the hashes of the top of a tree over `pages`.
pub record IsCommitted (sha : Sha256) {S H : PageOperations} (s : TieredMerklePageStore S H)
    (pages : ℕ → Page) : Type 0 where
  pub hash_at : ℕ → Hash
  pub tree : IsTree sha s.store_id s.page_count s.leaf_base pages hash_at
  pub trusted : (n : ℕ) (x : Hash) → 0 < n → index s.trusted_hashes n ≡ ok x → x ≡ hash_at n
  pub trusted_sized : (n : ℕ) (x : Hash) → index s.trusted_hashes n ≡ ok x → length x ≡ 32
  pub room : s.page_count ≤ s.leaf_base
  pub root_trusted : 1 < s.trusted_node_limit

module _ (sha : Sha256) (S H : PageOperations) where
  kept :
      (s s' : TieredMerklePageStore S H) {pages : ℕ → Page}
      → Trusted sha S H s s'
      → IsCommitted sha s pages
      → IsCommitted sha s' pages
  kept s s' t c = record {
    hash_at = c.hash_at;
    tree = rw (t.id, t.count, t.base) c.tree;
    trusted = rw (t.hashes) c.trusted;
    trusted_sized = rw (t.hashes) c.trusted_sized;
    room = rw (t.count, t.base) c.room;
    root_trusted = rw (t.limit) c.root_trusted;
  }

  verify_page_hash_yields :
      (s : TieredMerklePageStore S H) (pages : ℕ → Page) (i : ℕ) (page : Page)
      → IsCommitted sha s pages
      → i < s.page_count
      → Yields
          (λ done s'. ((page ≡ pages i) ⊎ Collision sha) × IsCommitted sha s' pages)
          (verify_page_hash sha S H i (hash_leaf sha s.store_id i page) s)
  unfolding verify_page_hash
  verify_page_hash_yields s pages i page c lt =
      Yields-continue
        (climb_yields sha S H s.leaf_base c.hash_at c.tree.inner_node c.tree.sized
          (suc (s.leaf_base + i)) (s.leaf_base + i) (hash_leaf sha s.store_id i page) s
          (omega (arith, c.room, lt)) (omega (arith, c.room, lt)) c.root_trusted
          (length-hash_leaf sha s.store_id i page) c.trusted_sized)
        λ top s' g. Yields-lift (index s'.trusted_hashes (top.0)) _ λ expected e.
          Yields-end (reject_if _ _) λ done passed.
            let right : expected ≡ c.hash_at (top.0) =
              c.trusted (top.0) expected g.above (rw (← g.trusted.hashes) e) in
            let same : top.1 ≡ expected =
              hash_eq→eq (top.1) expected
                (g.sized ∙ sym (c.trusted_sized (top.0) expected (rw (← g.trusted.hashes) e)))
                (passes _ _ passed) in
            (
              elim (g.back (same ∙ right)) [
                | inr k ↦ inr k
                | inl p ↦ hash_leaf_page sha s.store_id i page (pages i) (p ∙ c.tree.leaf i lt)
              ],
              kept s s' g.trusted c,
            )

  -- Whatever the data store and the hash store answer, if the trusted hashes are those of a tree
  -- over `pages`, then a read of the tiered store that succeeds gives the page of the index, or
  -- two different byte strings have one digest; the trusted hashes stay those of that tree.
  pub read_page_authentic :
      (s : TieredMerklePageStore S H) (pages : ℕ → Page) (i : ℕ) (out : Page)
      → IsCommitted sha s pages
      → Yields
          (λ page s'. ((page ≡ pages i) ⊎ Collision sha) × IsCommitted sha s' pages)
          (read_page sha S H i out s)
  unfolding read_page
  read_page_authentic s pages i out c =
      Yields-continue {R = λ page s'. Trusted sha S H s s' × (i < s.page_count)}
        (Yields-lift (check_page s.page_count s.page_size i (length out)) _ λ done checked.
          Yields-weaken (on_inner_yields sha S H (S.read_page i out) s)
            λ page s' t. (t, (check_page_passed _ _ i _ checked).0))
        λ page s' (t, lt).
          Yields-continue
            (verify_page_hash_yields s' pages i page (kept s s' t c) (rw (t.count) lt))
            λ done s'' v. Yields-ok v
