-- ===== src/Merkle/Full/Build.antt =====
-- src/merkle.rs, `MerklePageStore::new`: over a store that keeps its promises it succeeds, and the
-- hashes are those of the pages there are.
use native.Mathlib.Nat.{mod-eq_of_lt}
use oram.Base.{
  ℕ, zero, suc, ◌+◌, ◌-◌, ◌*◌, ◌%◌, ◌^◌, ◌≤◌, ◌<◌, ◌≡◌, refl, sym, ap, ◌∙◌, List, length,
  length-replicate, get_or-replicate, replicate, false, update, update-ne, update_self, Bool-cases,
  inl, inr, ltb, lt→ltb, ltb→lt, ◌||◌, ◌==◌, if◌then◌else◌, ==→eq, ==→ne, arith, subst,
}
use oram.Base.Bits.{two_pow-pos, two_pow_mono}
use oram.Outcome.{Result, ok}
use oram.Store.{Page, Served, PageStore}
use oram.Store.Operations.{operations}
use oram.Merkle.{Hash, Sha256, hash_leaf, hash_empty_leaf}
use oram.Merkle.Hashes.{leaf_base_lem, length-hash_leaf, length-hash_empty_leaf}
use oram.Merkle.Commit.{AllSized, update_sized}
use oram.Merkle.Tree.Refine.{hash_fn, set_at_lem}
use oram.Merkle.Tree.Fill.{hash_nodes_lem}
use oram.Merkle.Full.{MerklePageStore, leaf_hash, hash_leaves, new}
use oram.Merkle.Full.Pages.{IsValid}

not_empty : (count size : ℕ) → 0 < count → 0 < size → (count == 0 || size == 0) ≡ false
not_empty count size c s = ground arith

module _ (sha : Sha256) (P : PageStore) (id : List ℕ) (count size leaf_base : ℕ)
    (pages : ℕ → Page) where
  -- The inner store stays as it was.
  record Unread (s : P.State) : Type 0 where
    valid : P.view.IsValid s
    size_is : P.view.page_size s ≡ size
    count_is : P.view.page_count s ≡ count
    pages_are : P.view.page s ≡ pages

  -- The hash that belongs at leaf `j`.
  leaf_of : ℕ → Hash
  leaf_of j = if ltb j count then hash_leaf sha id j (pages j) else hash_empty_leaf sha id j size

  record Hashed (j : ℕ) (r : Result (Hash × Page) × P.State) : Type 0 where
    page : Page
    after : P.State
    result_is : r ≡ (ok (leaf_of j, page), after)
    sized : length page ≡ size
    unread : Unread after

  leaf_hash_lem :
      (j : ℕ) (page : Page) (s : P.State)
      → ((j : ℕ) → j < count → length (pages j) ≡ size)
      → length page ≡ size
      → Unread s
      → Hashed j (leaf_hash sha (operations P) id count size j page s)
  unfolding leaf_hash leaf_of
  leaf_hash_lem j page s all e u = elim (Bool-cases (ltb j count)) [
    | inl t ↦
        let one : Served P.view s (P.read_page j page s) (P.view.page s j) (P.view.page s) =
          P.read_page_served j page s u.valid (rw (u.count_is) (ltb→lt j count t))
            (e ∙ sym u.size_is) in
        rw t (record {
          page = pages j;
          after = one.after;
          result_is = rw (one.result_is, u.pages_are, t) refl;
          sized = all j (ltb→lt j count t);
          unread = record {
            valid = one.valid;
            size_is = one.size_kept ∙ u.size_is;
            count_is = one.count_kept ∙ u.count_is;
            pages_are = one.pages_are ∙ u.pages_are;
          };
        })
    | inr t ↦ rw t (record { page = page; after = s; result_is = rw t refl; sized = e; unread = u })
  ]

  leaf_of_page : (j : ℕ) → j < count → leaf_of j ≡ hash_leaf sha id j (pages j)
  unfolding leaf_of
  leaf_of_page j lt = rw (lt→ltb j count lt) refl

  -- The leaves before `j` are there.
  abbrev HaveLeaves : ℕ → (ℕ → Hash) → Type 0
  HaveLeaves j h = (i : ℕ) → i < j → h (leaf_base + i) ≡ leaf_of i

  length-leaf_of : (j : ℕ) → length (leaf_of j) ≡ 32
  unfolding leaf_of
  length-leaf_of j = elim (Bool-cases (ltb j count)) [
    | inl t ↦ rw t (length-hash_leaf sha id j (pages j))
    | inr t ↦ rw t (length-hash_empty_leaf sha id j size)
  ]

  HaveLeaves-update :
      (j : ℕ) (h : ℕ → Hash)
      → HaveLeaves j h
      → HaveLeaves (suc j) (update h (leaf_base + j) (leaf_of j))
  HaveLeaves-update j h have i lt = elim (Bool-cases (i == j)) [
    | inl t ↦
        let e : j ≡ i = sym (==→eq i j t) in
        subst (λ k. update h (leaf_base + j) (leaf_of j) (leaf_base + k) ≡ leaf_of k) e
          (update_self h (leaf_base + j) (leaf_of j))
    | inr t ↦
        update-ne h (leaf_base + j) (leaf_of j) (leaf_base + i) (omega (arith, ==→ne i j t))
        ∙ have i (omega (arith, ==→ne i j t, lt))
  ]

  record AllHashed (r : Result (List Hash) × P.State) : Type 0 where
    hashes : List Hash
    after : P.State
    result_is : r ≡ (ok hashes, after)
    size_is : length hashes ≡ leaf_base * 2
    have : HaveLeaves leaf_base (hash_fn hashes)
    sized : AllSized leaf_base (hash_fn hashes)
    unread : Unread after

  hash_leaves_lem :
      (n j : ℕ) (page : Page) (hashes : List Hash) (s : P.State)
      → ((j : ℕ) → j < count → length (pages j) ≡ size)
      → j + n ≡ leaf_base
      → length page ≡ size
      → length hashes ≡ leaf_base * 2
      → HaveLeaves j (hash_fn hashes)
      → AllSized leaf_base (hash_fn hashes)
      → Unread s
      → AllHashed (hash_leaves sha (operations P) id count size leaf_base n j page hashes s)
  unfolding hash_leaves
  hash_leaves_lem zero j page hashes s all e le l have sized u = record {
    hashes = hashes;
    after = s;
    result_is = refl;
    size_is = l;
    have = λ i lt. have i (omega (arith, e, lt));
    sized = sized;
    unread = u;
  }
  hash_leaves_lem (suc n) j page hashes s all e le l have sized u =
      let one = leaf_hash_lem j page s all le u in
      let put = set_at_lem hashes (leaf_base + j) (leaf_of j) l (omega (arith, e)) in
      let rest =
        hash_leaves_lem n (suc j) one.page put.hashes one.after all (omega (arith, e)) one.sized
          put.sized
          (subst (HaveLeaves (suc j)) (sym put.reads) (HaveLeaves-update j (hash_fn hashes) have))
          (subst (AllSized leaf_base) (sym put.reads) (
            update_sized sha leaf_base (hash_fn hashes) (leaf_base + j) (leaf_of j) sized
              (length-leaf_of j)))
          one.unread in
      record {
        hashes = rest.hashes;
        after = rest.after;
        result_is = rw (one.result_is, put.result_is) rest.result_is;
        size_is = rest.size_is;
        have = rest.have;
        sized = rest.sized;
        unread = rest.unread;
      }

module _ (sha : Sha256) (P : PageStore) (id : List ℕ) (inner : P.State) where
  open P use {view}

  -- A new store over `inner`.
  pub record IsNew (r : Result (MerklePageStore (operations P)) × P.State) : Type 0 where
    pub store : MerklePageStore (operations P)
    pub result_is : r ≡ (ok store, store.inner)
    pub valid : IsValid sha P store
    pub pages_are : view.page store.inner ≡ view.page inner
    pub id_is : store.store_id ≡ id
    pub count_is : store.page_count ≡ view.page_count inner
    pub size_is : store.page_size ≡ view.page_size inner

  -- Over a valid page store with between one and 2 ^ 57 pages, each of the page size, which is
  -- positive and below 2 ^ 63, a new Merkle store is returned: it is valid, so its hashes are
  -- those of a tree over the pages there are, it has the store id given, and the pages and sizes
  -- are those of the inner store.
  pub new_lem :
      view.IsValid inner
      → 0 < view.page_count inner
      → view.page_count inner ≤ 2 ^ 57
      → 0 < view.page_size inner
      → view.page_size inner < 2 ^ 63
      → ((i : ℕ) → i < view.page_count inner → length (view.page inner i) ≡ view.page_size inner)
      → IsNew (new sha (operations P) id inner)
  unfolding new
  new_lem v some_pages few some_bytes small_page all =
      let (k, base_is, room, top) =
        leaf_base_lem 57 (view.page_count inner) (omega arith) some_pages few in
      let in_word : 2 ^ k * 2 % 2 ^ 64 ≡ 2 ^ k * 2 =
        mod-eq_of_lt (omega (arith, two_pow_mono k 57 top)) in
      let leaves =
        hash_leaves_lem sha P id (view.page_count inner) (view.page_size inner) (2 ^ k)
          (view.page inner) (2 ^ k) 0 (replicate (view.page_size inner) 0)
          (replicate (2 ^ k * 2 % 2 ^ 64) (replicate 32 0)) inner all (omega arith)
          (length-replicate _ 0) (length-replicate _ _ ∙ in_word) (λ i lt. absurd (omega arith))
          (λ m lt. ap length (get_or-replicate (2 ^ k * 2 % 2 ^ 64) m (replicate 32 0)))
          (record { valid = v; size_is = refl; count_is = refl; pages_are = refl }) in
      let grown =
        hash_nodes_lem sha (2 ^ k) (2 ^ k - 1) leaves.hashes (omega (arith, two_pow-pos k))
          leaves.size_is (λ m lt top. absurd (omega (arith, lt, top))) leaves.sized in
      let u = leaves.unread in
      let guard = not_empty (view.page_count inner) (view.page_size inner) some_pages some_bytes in
      record {
        store = record {
          inner = leaves.after;
          store_id = id;
          page_size = view.page_size inner;
          page_count = view.page_count inner;
          leaf_base = 2 ^ k;
          hashes = grown.hashes;
        };
        result_is = rw (guard, base_is, leaves.result_is, grown.result_is) refl;
        valid = record {
          inner_valid = u.valid;
          size_is = u.size_is;
          count_is = u.count_is;
          sealed = rw (u.pages_are) (record {
            tree = record {
              inner_node = grown.holds;
              leaf = λ i lt.
                  grown.leaves_kept (2 ^ k + i) (omega arith)
                  ∙ (leaves.have i (omega (arith, lt, room))
                      ∙ leaf_of_page sha P id _ _ (2 ^ k) _ i lt);
              sized = grown.sized;
            };
            sized = grown.size_is;
            room = room;
          });
        };
        pages_are = u.pages_are;
        id_is = refl;
        count_is = refl;
        size_is = refl;
      }
