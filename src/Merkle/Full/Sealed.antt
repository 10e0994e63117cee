-- ===== src/Merkle/Full/Sealed.antt =====
-- src/merkle.rs, `MerklePageStore`: the whole tree is trusted, so the store commits to the pages last
-- written, whatever the store behind it answers.
use oram.Base.{ℕ, ◌+◌, ◌*◌, ◌≤◌, ◌<◌, ◌≡◌, refl, sym, ap, ◌∙◌, ◌⊎◌, length, update, arith}
use oram.Outcome.{Result, ok, err, index, reject_if}
use oram.Outcome.Stateful.{M, continue}
use oram.Outcome.Yields.{Yields, Yields-ok, Yields-err, Yields-continue, Yields-lift, Yields-weaken}
use oram.Store.{Page}
use oram.Store.Mem.{check_page}
use oram.Store.Mem.Laws.{check_page_passed}
use oram.Store.Operations.{PageOperations}
use oram.Merkle.{Sha256, hash_leaf}
use oram.Merkle.Hashes.{Collision, hash_leaf_page, hash_eq→eq, passes, length-hash_leaf}
use oram.Merkle.Commit.{IsTree, write-IsTree}
use oram.Merkle.Tree.{update_leaf}
use oram.Merkle.Tree.Refine.{hash_fn, index_ok, update_leaf_lem}
use oram.Merkle.Full.{MerklePageStore, on_inner, read_page, write_page}

-- The hashes are those of a whole tree over `pages`.
pub record IsSealed (sha : Sha256) {S : PageOperations} (s : MerklePageStore S) (pages : ℕ → Page)
    : Type 0 where
  pub tree : IsTree sha s.store_id s.page_count s.leaf_base pages (hash_fn s.hashes)
  pub sized : length s.hashes ≡ s.leaf_base * 2
  pub room : s.page_count ≤ s.leaf_base

ok_inj : {A : Type 0} {a b : A} → ok a ≡ ok b → a ≡ b
ok_inj h = ground (arith, h)

module _ (sha : Sha256) (S : PageOperations) where
  -- Whatever the inner store does, the rest of the state stays.
  on_inner_yields :
      {A : Type 0} (m : M S.State A) (s : MerklePageStore S)
      → Yields (λ a s'. (t : S.State) × (s' ≡ record s { inner = t })) (on_inner sha S m s)
  unfolding on_inner
  on_inner_yields {A = A} m s = go (m s.inner)
    where
      go :
          (r : Result A × S.State)
          → Yields
              (λ a s'. (t : S.State) × (s' ≡ record s { inner = t }))
              (r.0, record s { inner = r.1 })
      go (ok a, t) = Yields-ok (t, refl)
      go (err e, t) = Yields-err

  on_inner_sealed :
      {A : Type 0} (m : M S.State A) (s : MerklePageStore S) (pages : ℕ → Page)
      → IsSealed sha s pages
      → Yields (λ a s'. IsSealed sha s' pages × (s'.page_count ≡ s.page_count)) (on_inner sha S m s)
  on_inner_sealed m s pages v =
      Yields-weaken (on_inner_yields m s)
        λ a s' (t, e). rw e (record { tree = v.tree; sized = v.sized; room = v.room }, refl)

  checked :
      {A : Type 0} (s : MerklePageStore S) (pages : ℕ → Page) (i len : ℕ) (m : M S.State A)
      → IsSealed sha s pages
      → Yields
          (λ a s'. IsSealed sha s' pages × (i < s.page_count) × (i < s'.page_count))
          (continue (λ done. on_inner sha S m) (check_page s.page_count s.page_size i len, s))
  checked s pages i len m v =
      Yields-lift (check_page s.page_count s.page_size i len) _ λ done passed.
        Yields-weaken (on_inner_sealed m s pages v) λ page s' (v', same).
          (v', (check_page_passed _ _ i _ passed).0, rw same ((check_page_passed _ _ i _ passed).0))

  -- Whatever the inner store answers, if the hashes are those of a tree over `pages`, then a read
  -- of the Merkle store that succeeds gives the page of the index, or two different byte strings
  -- have one digest; the hashes stay those of that tree.
  pub read_authentic :
      (s : MerklePageStore S) (pages : ℕ → Page) (i : ℕ) (out : Page)
      → IsSealed sha s pages
      → Yields
          (λ page s'. ((page ≡ pages i) ⊎ Collision sha) × IsSealed sha s' pages)
          (read_page sha S i out s)
  unfolding read_page
  read_authentic s pages i out v =
      Yields-continue
        {R = λ page s'. IsSealed sha s' pages × (i < s.page_count) × (i < s'.page_count)}
        (checked s pages i (length out) (S.read_page i out) v)
        λ page s' (v', lt, lt'). Yields-lift (index s.hashes (s.leaf_base + i)) _ λ expected e.
          Yields-lift (reject_if _ _) _ λ done passed.
            let at_leaf : ok expected ≡ ok (hash_fn s.hashes (s.leaf_base + i)) =
              sym e ∙ index_ok s.hashes (s.leaf_base + i) (omega (arith, v.sized, v.room, lt)) in
            let right : expected ≡ hash_leaf sha s.store_id i (pages i) =
              ok_inj at_leaf ∙ v.tree.leaf i lt in
            let same : hash_leaf sha s.store_id i page ≡ expected =
              hash_eq→eq (hash_leaf sha s.store_id i page) expected
                (length-hash_leaf sha s.store_id i page
                  ∙ sym (ap length right ∙ length-hash_leaf sha s.store_id i (pages i)))
                (passes _ _ passed) in
            Yields-ok (hash_leaf_page sha s.store_id i page (pages i) (same ∙ right), v')

  -- Whatever the inner store does, if the hashes are those of a tree over `pages`, then after a
  -- write to the Merkle store that succeeds they are those of a tree over `pages` with the page
  -- written.
  pub write_sealed :
      (s : MerklePageStore S) (pages : ℕ → Page) (i : ℕ) (input : Page)
      → IsSealed sha s pages
      → Yields (λ done s'. IsSealed sha s' (update pages i input)) (write_page sha S i input s)
  unfolding write_page
  write_sealed s pages i input v =
      Yields-continue
        {R = λ done s'. IsSealed sha s' pages × (i < s.page_count) × (i < s'.page_count)}
        (checked s pages i (length input) (S.write_page i input) v)
        λ done s' (v', lt', lt).
          let r =
            update_leaf_lem sha s'.leaf_base (s'.leaf_base + i) (hash_leaf sha s'.store_id i input)
              s'.hashes v'.sized (omega (arith, v'.room, lt)) in
          Yields-lift
            (update_leaf sha (s'.leaf_base + i) (hash_leaf sha s'.store_id i input) s'.hashes) _
            λ hashes e.
              let same : hashes ≡ r.hashes = ok_inj (sym e ∙ r.result_is) in
              Yields-ok (
                rw same (record {
                  tree = rw (r.reads) (
                      write-IsTree sha s'.store_id s'.page_count s'.leaf_base pages _ v'.tree
                        v'.room i input lt);
                  sized = r.sized;
                  room = v'.room;
                }))
