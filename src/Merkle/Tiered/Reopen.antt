-- ===== src/Merkle/Tiered/Reopen.antt =====
-- src/merkle.rs, `TieredMerklePageStore`: a trusted state commits to the pages of the store that it was
-- taken from, and so does a store that is reopened from it over any two stores.
use oram.Base.{ℕ, ◌≡◌, refl, sym, ap, ◌∙◌, ◌⊎◌, length, replicate, not, ltb, ◌==◌, ==→eq, arith}
use oram.Outcome.{ok, index, reject_if, invalid_input}
use oram.Outcome.Steps.{Steps-of, index_some, ok_inj}
use oram.Outcome.Yields.{Yields}
use oram.Store.{Page, PageStore}
use oram.Store.Operations.{PageOperations, operations}
use oram.Merkle.{
  Hash, Sha256, leaf_base_for_page_count, trusted_node_limit, hashes_per_page, disk_hash_nodes,
  pages_for_hash_nodes,
}
use oram.Merkle.Hashes.{Collision, passes}
use oram.Merkle.Tiered.{TieredMerklePageStore, read_page}
use oram.Merkle.Tiered.Open.{trusted_state, from_trusted_state}
use oram.Merkle.Tiered.Packing.{hash_of_trusted}
use oram.Merkle.Tiered.Held.{hash_at}
use oram.Merkle.Tiered.Pages.{IsValid}
use oram.Merkle.Tiered.Tamper.{IsCommitted, read_page_authentic}

-- The sizes of the store are those that its page count and its levels give.
pub record IsSized {S H : PageOperations} (s : TieredMerklePageStore S H) : Type 0 where
  pub base_is : leaf_base_for_page_count s.page_count ≡ ok s.leaf_base
  pub limit_is : trusted_node_limit s.leaf_base s.trusted_levels ≡ ok s.trusted_node_limit

-- The trusted parts agree.
pub record Reopened {S H S' H' : PageOperations} (s : TieredMerklePageStore S H)
    (t : TieredMerklePageStore S' H') : Type 0 where
  pub hashes_are : t.trusted_hashes ≡ s.trusted_hashes
  pub id_is : t.store_id ≡ s.store_id
  pub count_is : t.page_count ≡ s.page_count
  pub base_is : t.leaf_base ≡ s.leaf_base
  pub limit_is : t.trusted_node_limit ≡ s.trusted_node_limit

module _ (sha : Sha256) (P Q : PageStore) (s : TieredMerklePageStore (operations P) (operations Q))
    (v : IsValid sha P Q s) where
  trusted_index :
      (n : ℕ) (x : Hash) → index s.trusted_hashes n ≡ ok x → x ≡ hash_at sha (operations P) Q s n
  trusted_index n x e =
      let (lt, same) = index_some s.trusted_hashes n (replicate 32 0) e in
      same
      ∙ sym (
          hash_of_trusted s.trusted_node_limit s.hashes_per_page s.trusted_hashes
            (Q.view.page s.hash_store) n (omega (arith, lt, v.room.trusted_len)))

  trusted_length : (n : ℕ) (x : Hash) → index s.trusted_hashes n ≡ ok x → length x ≡ 32
  trusted_length n x e =
      let (lt, _) = index_some s.trusted_hashes n (replicate 32 0) e in
      ap length (trusted_index n x e)
      ∙ v.tree.sized n (omega (arith, lt, v.room.trusted_len, v.room.limit_le))

  -- A valid store commits to its pages.
  pub IsValid-IsCommitted : IsCommitted sha s (P.view.page s.inner)
  IsValid-IsCommitted = record {
    hash_at = hash_at sha (operations P) Q s;
    tree = v.tree;
    trusted = λ n x pos e. trusted_index n x e;
    trusted_sized = trusted_length;
    room = v.count_le;
    root_trusted = v.root_trusted;
  }

  module _ (S H : PageOperations) (inner : S.State) (hash_store : H.State) (sized : IsSized s)
      (t : TieredMerklePageStore S H)
      (opened : from_trusted_state S H inner hash_store
          (trusted_state (operations P) (operations Q) s)
        ≡ ok t) where
    opened_again : Reopened s t
    unfolding from_trusted_state trusted_state
    opened_again =
        let counted =
          Steps-of (reject_if (not (S.page_count inner == s.page_count)) invalid_input) _ opened in
        let paged =
          Steps-of (reject_if (not (S.page_size inner == s.page_size)) invalid_input) _
            counted.rest in
        let hashed =
          Steps-of
            (reject_if (not (H.page_size hash_store == Q.view.page_size s.hash_store))
              invalid_input)
            _ paged.rest in
        let based = Steps-of (leaf_base_for_page_count (S.page_count inner)) _ hashed.rest in
        let limited = Steps-of (trusted_node_limit based.value s.trusted_levels) _ based.rest in
        let filled =
          Steps-of (reject_if (not (length s.trusted_hashes == limited.value)) invalid_input) _
            limited.rest in
        let packed = Steps-of (hashes_per_page (H.page_size hash_store)) _ filled.rest in
        let roomy =
          Steps-of
            (reject_if
              (ltb (H.page_count hash_store)
                (pages_for_hash_nodes (disk_hash_nodes based.value limited.value) packed.value))
              invalid_input)
            _ packed.rest in
        let same_count : S.page_count inner ≡ s.page_count = ==→eq _ _ (passes _ _ counted.first) in
        let same_base : based.value ≡ s.leaf_base =
          ok_inj (sym based.first ∙ (ap leaf_base_for_page_count same_count ∙ sized.base_is)) in
        let same_limit : limited.value ≡ s.trusted_node_limit = ok_inj (
          sym limited.first
          ∙ (ap (λ b. trusted_node_limit b s.trusted_levels) same_base ∙ sized.limit_is)) in
        let is = ok_inj roomy.rest in
        rw (← is) (record {
          hashes_are = refl;
          id_is = refl;
          count_is = same_count;
          base_is = same_base;
          limit_is = same_limit;
        })

    -- When a tiered store is valid and of the sizes that its page count and levels give, and
    -- another is reopened from its trusted state over any two stores, then a read of the reopened
    -- store that succeeds gives the page that the first one had, or two different byte strings
    -- have one digest; its trusted hashes stay those of the first one's pages.
    pub reopened_authentic :
        (i : ℕ) (out : Page)
        → Yields
            (λ page t'.
              ((page ≡ P.view.page s.inner i) ⊎ Collision sha)
              × IsCommitted sha t' (P.view.page s.inner))
            (read_page sha S H i out t)
    reopened_authentic i out =
        let r = opened_again in
        read_page_authentic sha S H t (P.view.page s.inner) i out (record {
          hash_at = hash_at sha (operations P) Q s;
          tree = rw (r.id_is, r.count_is, r.base_is) v.tree;
          trusted = rw (r.hashes_are) (λ n x pos e. trusted_index n x e);
          trusted_sized = rw (r.hashes_are) trusted_length;
          room = rw (r.count_is, r.base_is) v.count_le;
          root_trusted = rw (r.limit_is) v.root_trusted;
        })
