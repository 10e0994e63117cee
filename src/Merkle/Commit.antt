-- ===== src/Merkle/Commit.antt =====
-- src/merkle.rs: what a tree of hashes commits to, and how it changes when a leaf does. The hashes
-- are a function of the node number; both stores refine it.
use oram.Base.{
  List, ℕ, zero, suc, ◌+◌, ◌*◌, ◌/◌, ◌≤◌, ◌<◌, ◌≡◌, ◌≢◌, refl, sym, ap, ap₂, ◌∙◌, length, update,
  update-ne, update_self, Bool-cases, inl, inr, ltb, ◌==◌, ==→eq, ==→ne, eq→==, ne→==, subst,
  ltb→lt, ltb→le, if◌then◌else◌, arith,
}
use oram.Store.{Page}
use oram.Merkle.{Hash, Sha256, hash_leaf, hash_node}
use oram.Merkle.Hashes.{length-hash_leaf, length-hash_node}

-- All hashes of the tree have their 32 bytes.
abbrev pub AllSized : ℕ → (ℕ → Hash) → Type 0
AllSized leaf_base h = (n : ℕ) → n < leaf_base * 2 → length (h n) ≡ 32

-- Hashes of a whole tree over `pages`: every inner node has the hash of its children.
pub record IsTree (sha : Sha256) (store_id : List ℕ) (page_count leaf_base : ℕ) (pages : ℕ → Page)
    (hash_at : ℕ → Hash) : Type 0 where
  pub inner_node :
      (n : ℕ)
      → 0 < n
      → n < leaf_base
      → hash_at n ≡ hash_node sha n (hash_at (n * 2)) (hash_at (n * 2 + 1))
  pub leaf : (i : ℕ) → i < page_count → hash_at (leaf_base + i) ≡ hash_leaf sha store_id i (pages i)
  pub sized : AllSized leaf_base hash_at

module _ (sha : Sha256) (leaf_base : ℕ) where
  -- The inner node `n` has the hash of its children.
  abbrev pub Holds : (ℕ → Hash) → ℕ → Type 0
  Holds h n = h n ≡ hash_node sha n (h (n * 2)) (h (n * 2 + 1))

  -- All inner nodes do but the parent of `n`.
  abbrev IsOpen : (ℕ → Hash) → ℕ → Type 0
  IsOpen h n = (m : ℕ) → 0 < m → m < leaf_base → m ≢ n / 2 → Holds h m

  -- A new hash at `n` opens the parent of `n` alone, where `n` itself holds.
  pub Holds-update :
      (h : ℕ → Hash) (n m : ℕ) (x : Hash) → Holds h m → m ≢ n → m ≢ n / 2 → Holds (update h n x) m
  Holds-update h n m x holds self parent =
      update-ne h n x m (λ e. self (sym e))
      ∙ (holds
          ∙ ap₂ (hash_node sha m) (sym (update-ne h n x (m * 2) (λ e. parent (omega (arith, e)))))
              (sym (update-ne h n x (m * 2 + 1) (λ e. parent (omega (arith, e))))))

  -- A node that is rehashed holds.
  pub Holds_rehashed :
      (h : ℕ → Hash) (n : ℕ)
      → 0 < n
      → Holds (update h n (hash_node sha n (h (n * 2)) (h (n * 2 + 1)))) n
  Holds_rehashed h n pos =
      update_self h n _
      ∙ ap₂ (hash_node sha n) (sym (update-ne h n _ (n * 2) (omega (arith, pos))))
          (sym (update-ne h n _ (n * 2 + 1) (omega (arith, pos))))

  unfoldable pub parent_hash : (ℕ → Hash) → ℕ → Hash
  parent_hash h n = hash_node sha (n / 2) (h (n / 2 * 2)) (h (n / 2 * 2 + 1))

  -- The nodes above `n` rehashed in turn, up to the root.
  unfoldable pub rehash_up : ℕ → ℕ → (ℕ → Hash) → ℕ → Hash
  unfolding parent_hash
  rehash_up zero n h = h
  rehash_up (suc fuel) n h =
      let rest = rehash_up fuel (n / 2) (update h (n / 2) (parent_hash h n)) in
      if ltb 1 n then rest else h

  IsOpen-step :
      (h : ℕ → Hash) (n : ℕ)
      → 1 < n
      → IsOpen h n
      → IsOpen (update h (n / 2) (parent_hash h n)) (n / 2)
  unfolding parent_hash
  IsOpen-step h n top o m pos lt ne = elim (Bool-cases (m == n / 2)) [
    | inl t ↦
        let e : n / 2 ≡ m = omega (arith, ==→eq m (n / 2) t) in
        subst (Holds (update h (n / 2) (parent_hash h n))) e
          (Holds_rehashed h (n / 2) (omega (arith, e, pos)))
    | inr t ↦ Holds-update h (n / 2) m _ (o m pos lt (==→ne m (n / 2) t)) (==→ne m (n / 2) t) ne
  ]

  rehash_up_closed :
      (fuel n : ℕ) (h : ℕ → Hash)
      → n < fuel
      → IsOpen h n
      → (m : ℕ) → 0 < m
      → m < leaf_base
      → Holds (rehash_up fuel n h) m
  unfolding rehash_up
  rehash_up_closed zero n h enough o m pos lt = absurd (omega arith)
  rehash_up_closed (suc fuel) n h enough o m pos lt = elim (Bool-cases (ltb 1 n)) [
    | inl t ↦ rw t (
        rehash_up_closed fuel (n / 2) (update h (n / 2) (parent_hash h n))
          (omega (arith, ltb→lt 1 n t)) (IsOpen-step h n (ltb→lt 1 n t) o) m pos lt)
    | inr t ↦ rw t (o m pos lt (omega (arith, ltb→le 1 n t)))
  ]

  rehash_up_leaves :
      (fuel n : ℕ) (h : ℕ → Hash) (m : ℕ)
      → n < leaf_base * 2
      → leaf_base ≤ m
      → rehash_up fuel n h m ≡ h m
  unfolding rehash_up
  rehash_up_leaves zero n h m lt le = refl
  rehash_up_leaves (suc fuel) n h m lt le = elim (Bool-cases (ltb 1 n)) [
    | inl t ↦ rw t (
        rehash_up_leaves fuel (n / 2) (update h (n / 2) (parent_hash h n)) m (omega (arith, lt)) le
        ∙ update-ne h (n / 2) _ m (omega (arith, lt, le)))
    | inr t ↦ rw t refl
  ]

  pub update_sized :
      (h : ℕ → Hash) (n : ℕ) (x : Hash)
      → AllSized leaf_base h
      → length x ≡ 32
      → AllSized leaf_base (update h n x)
  update_sized h n x sized e m lt = ground (arith, sized m lt)

  rehash_up_sized :
      (fuel n : ℕ) (h : ℕ → Hash) → AllSized leaf_base h → AllSized leaf_base (rehash_up fuel n h)
  unfolding rehash_up parent_hash
  rehash_up_sized zero n h sized m lt = sized m lt
  rehash_up_sized (suc fuel) n h sized m lt = elim (Bool-cases (ltb 1 n)) [
    | inl t ↦ rw t (
        rehash_up_sized fuel (n / 2) (update h (n / 2) (parent_hash h n))
          (update_sized h (n / 2) _ sized (length-hash_node sha (n / 2) _ _)) m lt)
    | inr t ↦ rw t (sized m lt)
  ]

module _ (sha : Sha256) (id : List ℕ) (count leaf_base : ℕ) (pages : ℕ → Page) (h : ℕ → Hash)
    (tree : IsTree sha id count leaf_base pages h) (room : count ≤ leaf_base) where
  -- A new leaf, and the nodes above it rehashed: a tree over the pages with that one changed.
  pub write-IsTree :
      (i : ℕ) (page : Page)
      → i < count
      → IsTree sha id count leaf_base (update pages i page) (
          rehash_up sha leaf_base
            (suc (leaf_base + i))
            (leaf_base + i)
            (update h (leaf_base + i) (hash_leaf sha id i page)))
  write-IsTree i page lt = record {
    inner_node = rehash_up_closed sha leaf_base _ _ _ (omega arith) λ m pos below ne.
        Holds-update sha leaf_base h (leaf_base + i) m _ (tree.inner_node m pos below)
          (omega (arith, below)) ne;
    leaf = λ j ltj.
        rehash_up_leaves sha leaf_base _ _ _ (leaf_base + j) (omega (arith, lt, room)) (omega arith)
        ∙ leaf_written j ltj;
    sized =
        rehash_up_sized sha leaf_base _ _ _
          (update_sized sha leaf_base h _ _ tree.sized (length-hash_leaf sha id i page));
  }
    where
      leaf_written :
          (j : ℕ)
          → j < count
          → update h (leaf_base + i) (hash_leaf sha id i page) (leaf_base + j)
            ≡ hash_leaf sha id j (update pages i page j)
      leaf_written j ltj = elim (Bool-cases (i == j)) [
        | inl t ↦
            let e : i ≡ j = ==→eq i j t in
            rw (t, eq→== (leaf_base + i) (leaf_base + j) (omega (arith, e)))
              (ap (λ k. hash_leaf sha id k page) e)
        | inr t ↦
            rw (t, ne→== (leaf_base + i) (leaf_base + j) (omega (arith, ==→ne i j t)))
              (tree.leaf j ltj)
      ]
