-- ===== src/Merkle/Tiered/Held.antt =====
-- src/merkle.rs, `TieredMerklePageStore` over a hash store that keeps its promises: the hashes, in
-- trusted memory or packed into pages, are one vector that is read and written by node number.
use native.Mathlib.Nat.{mod-lt}
use oram.Base.{
  ℕ, suc, ◌+◌, ◌-◌, ◌*◌, ◌/◌, ◌%◌, ◌^◌, ◌≤◌, ◌<◌, ◌≡◌, refl, sym, ap, ◌∙◌, List, length,
  length-replicate, length-set, replicate, set, update, Bool-cases, inl, inr, ltb, ltb→le, ltb→lt,
  ◌==◌, arith,
}
use oram.Base.Bytes.{splice}
use oram.Outcome.{Result, ok}
use oram.Store.{Page, Served, Served-since, Served-as, PageStore}
use oram.Store.Operations.{PageOperations, operations}
use oram.Store.Mem.Slices.{length-splice}
use oram.Merkle.{Hash, Sha256}
use oram.Merkle.Tree.Refine.{index_ok, set_at_ok}
use oram.Merkle.Tiered.{
  TieredMerklePageStore, on_hashes, read_disk_hash, write_disk_hash, read_hash, write_hash,
}
use oram.Merkle.Tiered.Packing.{
  check_node_ok, position_ok, div-lt, slice_at_ok, splice_at_ok, hash_of, hash_of_trusted,
  hash_of_packed, hash_of-set, hash_of-splice,
}

module _ (sha : Sha256) (S : PageOperations) (P : PageStore) where
  open P use {view}

  -- Room for the hashes that are not trusted, on pages of the page size.
  pub record HasRoom (s : TieredMerklePageStore S (operations P)) : Type 0 where
    pub valid : view.IsValid s.hash_store
    pub big : 32 ≤ view.page_size s.hash_store
    pub per_page_is : s.hashes_per_page ≡ view.page_size s.hash_store / 32
    pub base_fits : s.leaf_base * 2 < 2 ^ 64
    pub limit_le : s.trusted_node_limit ≤ s.leaf_base * 2
    pub nodes_is : s.disk_hash_nodes ≡ s.leaf_base * 2 - s.trusted_node_limit
    pub enough : s.disk_hash_nodes ≤ view.page_count s.hash_store * s.hashes_per_page
    pub whole :
        (i : ℕ)
        → i < view.page_count s.hash_store
        → length (view.page s.hash_store i) ≡ view.page_size s.hash_store
    pub trusted_len : length s.trusted_hashes ≡ s.trusted_node_limit

  abbrev pub hash_at : TieredMerklePageStore S (operations P) → ℕ → Hash
  hash_at s =
      hash_of s.trusted_node_limit s.hashes_per_page s.trusted_hashes (view.page s.hash_store)

  -- A request that succeeds with `a`, and after which the hashes are `h`.
  pub record Held {A : Type 0} (s : TieredMerklePageStore S (operations P))
      (r : Result A × TieredMerklePageStore S (operations P)) (a : A) (h : ℕ → Hash) : Type 0 where
    pub hash_store : P.State
    pub trusted_hashes : List Hash
    pub result_is :
        r ≡ (ok a, record s { hash_store = hash_store; trusted_hashes = trusted_hashes })
    pub room : HasRoom (record s { hash_store = hash_store; trusted_hashes = trusted_hashes })
    pub hashes_are :
        hash_at (record s { hash_store = hash_store; trusted_hashes = trusted_hashes }) ≡ h

  slot_fits :
      (s : TieredMerklePageStore S (operations P)) (k : ℕ)
      → HasRoom s
      → k < s.disk_hash_nodes
      → (k / s.hashes_per_page < view.page_count s.hash_store)
        × (suc (k % s.hashes_per_page) * 32 ≤ view.page_size s.hash_store)
  slot_fits s k v lt =
      let pos : 0 < s.hashes_per_page = omega (arith, v.per_page_is, v.big) in
      (
        div-lt k s.hashes_per_page (view.page_count s.hash_store) (omega (arith, lt, v.enough)),
        omega (arith, v.per_page_is, mod-lt k pos),
      )

  module _ (s : TieredMerklePageStore S (operations P)) (v : HasRoom s) where
    -- A request that left the pages of the hash store as they were.
    reread-HasRoom :
        {A : Type 0} {r : Result A × P.State} {a : A}
        (one : Served view s.hash_store r a (view.page s.hash_store))
        → HasRoom (record s { hash_store = one.after })
    reread-HasRoom one = record {
      valid = one.valid;
      big = rw (one.size_kept) v.big;
      per_page_is = rw (one.size_kept) v.per_page_is;
      base_fits = v.base_fits;
      limit_le = v.limit_le;
      nodes_is = v.nodes_is;
      enough = rw (one.count_kept) v.enough;
      whole = rw (one.size_kept, one.count_kept, one.pages_are) v.whole;
      trusted_len = v.trusted_len;
    }

    read_disk_hash_lem :
        (n : ℕ)
        → s.trusted_node_limit ≤ n
        → n < s.leaf_base * 2
        → Held s (read_disk_hash sha S (operations P) n s) (hash_at s n) (hash_at s)
    unfolding read_disk_hash on_hashes
    read_disk_hash_lem n le lt =
        let k : ℕ = n - s.trusted_node_limit in
        let i : ℕ = k / s.hashes_per_page in
        let (in_range, fits) = slot_fits s k v (omega (arith, v.nodes_is)) in
        let one : Served view s.hash_store
            (P.read_page i (replicate (view.page_size s.hash_store) 0) s.hash_store)
            (view.page s.hash_store i) (view.page s.hash_store) =
          P.read_page_served i (replicate (view.page_size s.hash_store) 0) s.hash_store v.valid
            in_range (length-replicate _ 0) in
        record {
          hash_store = one.after;
          trusted_hashes = s.trusted_hashes;
          result_is =
              rw
                (
                  position_ok s.trusted_node_limit s.disk_hash_nodes s.hashes_per_page n le
                      (omega (arith, v.nodes_is)),
                  one.result_is,
                  slice_at_ok (view.page s.hash_store i) (k % s.hashes_per_page * 32) 32
                      (omega (arith, fits, v.whole i in_range)),
                  hash_of_packed s.trusted_node_limit s.hashes_per_page s.trusted_hashes
                      (view.page s.hash_store) n le,
                )
                refl;
          room = reread-HasRoom one;
          hashes_are =
              ap (hash_of s.trusted_node_limit s.hashes_per_page s.trusted_hashes) one.pages_are;
        }

    -- A page of the hash store written over.
    rewrite-HasRoom :
        {A : Type 0} {r : Result A × P.State} {a : A} (i : ℕ) (page : Page)
        (one : Served view s.hash_store r a (update (view.page s.hash_store) i page))
        → length page ≡ view.page_size s.hash_store
        → HasRoom (record s { hash_store = one.after })
    rewrite-HasRoom i page one e = record {
      valid = one.valid;
      big = rw (one.size_kept) v.big;
      per_page_is = rw (one.size_kept) v.per_page_is;
      base_fits = v.base_fits;
      limit_le = v.limit_le;
      nodes_is = v.nodes_is;
      enough = rw (one.count_kept) v.enough;
      whole =
          rw (one.size_kept, one.count_kept, one.pages_are)
            λ j lt. elim (Bool-cases (i == j)) [ inl t ↦ rw t e | inr t ↦ rw t (v.whole j lt) ];
      trusted_len = v.trusted_len;
    }

    pub read_hash_lem :
        (n : ℕ)
        → 0 < n
        → n < s.leaf_base * 2
        → Held s (read_hash sha S (operations P) n s) (hash_at s n) (hash_at s)
    unfolding read_hash
    read_hash_lem n pos lt = elim (Bool-cases (ltb n s.trusted_node_limit)) [
      | inl t ↦ record {
        hash_store = s.hash_store;
        trusted_hashes = s.trusted_hashes;
        result_is =
            rw
              (
                check_node_ok s.leaf_base n v.base_fits pos lt,
                t,
                index_ok s.trusted_hashes n (omega (arith, v.trusted_len, ltb→lt n _ t)),
                hash_of_trusted s.trusted_node_limit s.hashes_per_page s.trusted_hashes
                    (view.page s.hash_store) n (ltb→lt n _ t),
              )
              refl;
        room = v;
        hashes_are = refl;
      }
      | inr t ↦
          rw (check_node_ok s.leaf_base n v.base_fits pos lt, t)
            (read_disk_hash_lem n (ltb→le n _ t) lt)
    ]

    write_disk_hash_lem :
        (n : ℕ) (x : Hash)
        → s.trusted_node_limit ≤ n
        → n < s.leaf_base * 2
        → length x ≡ 32
        → Held s (write_disk_hash sha S (operations P) n x s) tt (update (hash_at s) n x)
    unfolding write_disk_hash on_hashes
    write_disk_hash_lem n x le lt e =
        let k : ℕ = n - s.trusted_node_limit in
        let i : ℕ = k / s.hashes_per_page in
        let place : ℕ = k % s.hashes_per_page * 32 in
        let (in_range, fits) = slot_fits s k v (omega (arith, v.nodes_is)) in
        let page : Page = view.page s.hash_store i in
        let one : Served view s.hash_store
            (P.read_page i (replicate (view.page_size s.hash_store) 0) s.hash_store) page
            (view.page s.hash_store) =
          P.read_page_served i (replicate (view.page_size s.hash_store) 0) s.hash_store v.valid
            in_range (length-replicate _ 0) in
        let fits' : place + length x ≤ length page = omega (arith, fits, e, v.whole i in_range) in
        let same_size : length (splice place x page) ≡ view.page_size s.hash_store =
          length-splice place x page fits' ∙ v.whole i in_range in
        let two : Served view s.hash_store (P.write_page i (splice place x page) one.after) tt
            (update (view.page s.hash_store) i (splice place x page)) =
          Served-since view s.hash_store one (
            Served-as view one.after refl (ap (λ f. update f i (splice place x page)) one.pages_are)
              (P.write_page_served i (splice place x page) one.after one.valid
                (rw (one.count_kept) in_range) (same_size ∙ sym one.size_kept))) in
        record {
          hash_store = two.after;
          trusted_hashes = s.trusted_hashes;
          result_is =
              rw
                (
                  position_ok s.trusted_node_limit s.disk_hash_nodes s.hashes_per_page n le
                      (omega (arith, v.nodes_is)),
                  one.result_is,
                  splice_at_ok page place x fits',
                  two.result_is,
                )
                refl;
          room = rewrite-HasRoom i (splice place x page) two same_size;
          hashes_are =
              ap (hash_of s.trusted_node_limit s.hashes_per_page s.trusted_hashes) two.pages_are
              ∙ hash_of-splice s.trusted_node_limit s.hashes_per_page s.trusted_hashes
                  (view.page s.hash_store) n x le e (omega (arith, fits, v.whole i in_range));
        }

    pub write_hash_lem :
        (n : ℕ) (x : Hash)
        → 0 < n
        → n < s.leaf_base * 2
        → length x ≡ 32
        → Held s (write_hash sha S (operations P) n x s) tt (update (hash_at s) n x)
    unfolding write_hash
    write_hash_lem n x pos lt e = elim (Bool-cases (ltb n s.trusted_node_limit)) [
      | inl t ↦ record {
        hash_store = s.hash_store;
        trusted_hashes = set s.trusted_hashes n x;
        result_is =
            rw
              (
                check_node_ok s.leaf_base n v.base_fits pos lt,
                t,
                set_at_ok s.trusted_hashes n x (omega (arith, v.trusted_len, ltb→lt n _ t)),
              )
              refl;
        room = record {
          valid = v.valid;
          big = v.big;
          per_page_is = v.per_page_is;
          base_fits = v.base_fits;
          limit_le = v.limit_le;
          nodes_is = v.nodes_is;
          enough = v.enough;
          whole = v.whole;
          trusted_len = length-set s.trusted_hashes n x ∙ v.trusted_len;
        };
        hashes_are =
            hash_of-set s.trusted_node_limit s.hashes_per_page s.trusted_hashes
              (view.page s.hash_store) n x v.trusted_len (ltb→lt n _ t);
      }
      | inr t ↦
          rw (check_node_ok s.leaf_base n v.base_fits pos lt, t)
            (write_disk_hash_lem n x (ltb→le n _ t) lt e)
    ]
