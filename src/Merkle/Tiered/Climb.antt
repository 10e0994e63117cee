-- ===== src/Merkle/Tiered/Climb.antt =====
-- src/merkle.rs, `TieredMerklePageStore`: reads of hashes and the climb of a read to the trusted
-- nodes, when both stores answer as they like.
use oram.Base.{
  bit_and, ==→eq, ==→ne, ℕ, zero, suc, ◌+◌, ◌*◌, ◌/◌, ◌<◌, ◌≡◌, refl, ap, ◌∙◌, ◌⊎◌, inl, inr, false,
  Bool-cases, length, length-take, length-drop, drop, replicate, ltb, leb, leb→le, ◌==◌, arith,
}
use oram.Base.Bits.Zero.{bit_and-one}
use oram.Outcome.{Result, ok, err, index}
use oram.Outcome.Stateful.{M}
use oram.Outcome.Yields.{
  Yields, Yields-ok, Yields-err, Yields-end, Yields-if, Yields-continue, Yields-lift, Yields-weaken,
}
use oram.Store.{Page}
use oram.Store.Operations.{PageOperations}
use oram.Merkle.{
  Hash, Sha256, hash_node, sibling_node, is_left_child, slice_at, disk_hash_position,
  check_node_idx,
}
use oram.Merkle.Commit.{AllSized}
use oram.Merkle.Hashes.{Collision, hash_node_children, length-hash_node}
use oram.Merkle.Tiered.{
  TieredMerklePageStore, on_inner, on_hashes, read_disk_hash, read_hash, hash_parent, climb,
}

pub ltb_of_leb : (n k : ℕ) → leb k n ≡ false → n < k
ltb_of_leb n k h = ground arith

module _ (sha : Sha256) (S H : PageOperations) where
  -- A read of a hash that succeeds leaves the trusted part alone and gives 32 bytes.
  pub record Trusted (s s' : TieredMerklePageStore S H) : Type 0 where
    pub hashes : s'.trusted_hashes ≡ s.trusted_hashes
    pub limit : s'.trusted_node_limit ≡ s.trusted_node_limit
    pub id : s'.store_id ≡ s.store_id
    pub count : s'.page_count ≡ s.page_count
    pub base : s'.leaf_base ≡ s.leaf_base

  same : (s : TieredMerklePageStore S H) → Trusted s s
  same s = record { hashes = refl; limit = refl; id = refl; count = refl; base = refl }

  -- Whatever the stores do, a request to them leaves the trusted part alone.
  pub on_inner_yields :
      {A : Type 0} (m : M S.State A) (s : TieredMerklePageStore S H)
      → Yields (λ a s'. Trusted s s') (on_inner sha S H m s)
  unfolding on_inner
  on_inner_yields {A = A} m s = go (m s.inner)
    where
      go : (r : Result A × S.State) → Yields (λ a s'. Trusted s s') (r.0, record s { inner = r.1 })
      go (ok a, t) =
          Yields-ok (record { hashes = refl; limit = refl; id = refl; count = refl; base = refl })
      go (err e, t) = Yields-err

  on_hashes_yields :
      {A : Type 0} (m : M H.State A) (s : TieredMerklePageStore S H)
      → Yields (λ a s'. Trusted s s') (on_hashes sha S H m s)
  unfolding on_hashes
  on_hashes_yields {A = A} m s = go (m s.hash_store)
    where
      go :
          (r : Result A × H.State)
          → Yields (λ a s'. Trusted s s') (r.0, record s { hash_store = r.1 })
      go (ok a, t) =
          Yields-ok (record { hashes = refl; limit = refl; id = refl; count = refl; base = refl })
      go (err e, t) = Yields-err

  length-slice_at :
      (page : Page) (start : ℕ) {x : Page} → slice_at page start 32 ≡ ok x → length x ≡ 32
  length-slice_at page start e =
      ground (arith, length-take 32 (drop start page), length-drop start page)

  read_disk_hash_yields :
      (n : ℕ) (s : TieredMerklePageStore S H)
      → Yields (λ x s'. (length x ≡ 32) × Trusted s s') (read_disk_hash sha S H n s)
  unfolding read_disk_hash
  read_disk_hash_yields n s = Yields-lift (disk_hash_position _ _ _ n) _ λ position _.
      Yields-continue
        (on_hashes_yields (H.read_page (position.0) (replicate (H.page_size s.hash_store) 0)) s)
        λ page s' same'.
          Yields-end (slice_at page (position.1) 32)
            λ x e. (length-slice_at page (position.1) e, same')

  read_hash_yields :
      (n : ℕ) (s : TieredMerklePageStore S H)
      → ((i : ℕ) (x : Hash) → index s.trusted_hashes i ≡ ok x → length x ≡ 32)
      → Yields (λ x s'. (length x ≡ 32) × Trusted s s') (read_hash sha S H n s)
  unfolding read_hash
  read_hash_yields n s h = Yields-lift (check_node_idx _ n) _ λ _ _.
      Yields-if (ltb n s.trusted_node_limit) _ _
        (λ _. Yields-end (index s.trusted_hashes n) λ x e. (h n x e, same s))
        (λ _. read_disk_hash_yields n s)

  -- The hash of a parent stands for the hash of its child.
  hash_parent_child :
      (hash_at : ℕ → Hash) (n : ℕ) (current sibling : Hash)
      → length current ≡ 32
      → length sibling ≡ 32
      → length (hash_at (n / 2 * 2)) ≡ 32
      → hash_parent sha S H n current sibling
        ≡ hash_node sha (n / 2) (hash_at (n / 2 * 2)) (hash_at (n / 2 * 2 + 1))
      → (current ≡ hash_at n) ⊎ Collision sha
  unfolding hash_parent is_left_child
  hash_parent_child hash_at n current sibling e e' sized h = elim (Bool-cases (bit_and n 1 == 0)) [
    | inl t ↦
        let left : n / 2 * 2 ≡ n = omega (arith, bit_and-one n, ==→eq _ 0 t) in
        elim (hash_node_children sha (n / 2) current sibling (hash_at (n / 2 * 2)) _ e sized
          (rw (t) at h)) [ inr c ↦ inr c | inl p ↦ inl (p.0 ∙ ap hash_at left) ]
    | inr t ↦
        let right : n / 2 * 2 + 1 ≡ n = omega (arith, bit_and-one n, ==→ne _ 0 t) in
        elim (hash_node_children sha (n / 2) sibling current (hash_at (n / 2 * 2)) _ e' sized
          (rw (t) at h)) [ inr c ↦ inr c | inl p ↦ inl (p.1 ∙ ap hash_at right) ]
  ]

  length-hash_parent :
      (n : ℕ) (current sibling : Hash) → length (hash_parent sha S H n current sibling) ≡ 32
  unfolding hash_parent
  length-hash_parent n current sibling = elim (Bool-cases (is_left_child n)) [
    | inl t ↦ rw t (length-hash_node sha (n / 2) current sibling)
    | inr t ↦ rw t (length-hash_node sha (n / 2) sibling current)
  ]

  -- Of the node where the climb ends: it is trusted, and if its hash is the right one, so was the
  -- hash at the start.
  pub record Reached (hash_at : ℕ → Hash) (s : TieredMerklePageStore S H) (n : ℕ) (current : Hash)
      (top : ℕ × Hash) (s' : TieredMerklePageStore S H) : Type 0 where
    pub trusted : Trusted s s'
    pub below : top.0 < s.trusted_node_limit
    pub above : 0 < top.0
    pub sized : length (top.1) ≡ 32
    pub back : top.1 ≡ hash_at (top.0) → (current ≡ hash_at n) ⊎ Collision sha

  module _ (leaf_base : ℕ) (hash_at : ℕ → Hash)
      (inner_node : (n : ℕ)
        → 0 < n
        → n < leaf_base
        → hash_at n ≡ hash_node sha n (hash_at (n * 2)) (hash_at (n * 2 + 1)))
      (sized : AllSized leaf_base hash_at) where
    pub climb_yields :
        (fuel n : ℕ) (current : Hash) (s : TieredMerklePageStore S H)
        → 0 < n
        → n < leaf_base * 2
        → 1 < s.trusted_node_limit
        → length current ≡ 32
        → ((i : ℕ) (x : Hash) → index s.trusted_hashes i ≡ ok x → length x ≡ 32)
        → Yields (Reached hash_at s n current) (climb sha S H fuel n current s)
    unfolding climb
    climb_yields zero n current s pos lt top e h = Yields-err
    climb_yields (suc fuel) n current s pos lt top e h =
        elim (Bool-cases (leb s.trusted_node_limit n)) [
          | inl t ↦ rw t (
              Yields-continue (read_hash_yields (sibling_node n) s h) λ sibling s' r.
                let in_tree : n / 2 < leaf_base * 2 = omega (arith, lt) in
                let up : 0 < n / 2 = omega (arith, leb→le _ _ t, top) in
                Yields-weaken
                  (climb_yields fuel (n / 2) (hash_parent sha S H n current sibling) s' up in_tree
                    (rw (r.1.limit) top) (length-hash_parent n current sibling) (rw (r.1.hashes) h))
                  λ reached s'' g. record {
                    trusted = record {
                      hashes = g.trusted.hashes ∙ r.1.hashes;
                      limit = g.trusted.limit ∙ r.1.limit;
                      id = g.trusted.id ∙ r.1.id;
                      count = g.trusted.count ∙ r.1.count;
                      base = g.trusted.base ∙ r.1.base;
                    };
                    below = rw (← r.1.limit) g.below;
                    above = g.above;
                    sized = g.sized;
                    back = λ p. elim (g.back p) [
                      | inr c ↦ inr c
                      | inl q ↦
                          hash_parent_child hash_at n current sibling e (r.0)
                            (sized (n / 2 * 2) (omega (arith, lt)))
                            (q ∙ inner_node (n / 2) up (omega (arith, lt)))
                    ];
                  })
          | inr t ↦ rw t (
              Yields-ok (record {
                trusted = same s;
                below = ltb_of_leb n s.trusted_node_limit t;
                above = pos;
                sized = e;
                back = λ p. inl p;
              }))
        ]
