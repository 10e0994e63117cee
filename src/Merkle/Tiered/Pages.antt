-- ===== src/Merkle/Tiered/Pages.antt =====
-- src/merkle.rs, `TieredMerklePageStore` over stores that keep their promises: it keeps them itself.
use oram.Base.{ℕ, ◌≤◌, ◌<◌, ◌≡◌, refl, ◌∙◌, length, update, arith}
use oram.Store.{Page, View, Served, PageStore}
use oram.Store.Mem.Laws.{check_page_ok}
use oram.Store.Operations.{operations}
use oram.Merkle.{Sha256, hash_leaf}
use oram.Merkle.Hashes.{length-hash_leaf}
use oram.Merkle.Commit.{IsTree, write-IsTree}
use oram.Merkle.Tiered.{TieredMerklePageStore, on_inner, read_page, write_page}
use oram.Merkle.Tiered.Held.{HasRoom, hash_at}
use oram.Merkle.Tiered.Loops.{verify_page_hash_lem, update_page_hash_lem}

module _ (sha : Sha256) (P Q : PageStore) where
  -- The stores are valid and of the sizes noted, and the hashes are those of the pages.
  pub record IsValid (s : TieredMerklePageStore (operations P) (operations Q)) : Type 0 where
    pub inner_valid : P.view.IsValid s.inner
    pub size_is : P.view.page_size s.inner ≡ s.page_size
    pub count_is : P.view.page_count s.inner ≡ s.page_count
    pub room : HasRoom sha (operations P) Q s
    pub root_trusted : 1 < s.trusted_node_limit
    pub count_le : s.page_count ≤ s.leaf_base
    pub tree :
        IsTree sha s.store_id s.page_count s.leaf_base
          (P.view.page s.inner)
          (hash_at sha (operations P) Q s)

  abbrev pub tiered_view : View (TieredMerklePageStore (operations P) (operations Q))
  tiered_view = record {
    page_size = λ s. s.page_size;
    page_count = λ s. s.page_count;
    page = λ s. P.view.page s.inner;
    IsValid = IsValid;
  }

  module _ (s : TieredMerklePageStore (operations P) (operations Q)) (v : IsValid s) (i : ℕ)
      (lt : i < s.page_count) where
    -- The inner store has moved on; the hashes have not.
    moved : (t : P.State) → HasRoom sha (operations P) Q (record s { inner = t })
    moved t = record {
      valid = v.room.valid;
      big = v.room.big;
      per_page_is = v.room.per_page_is;
      base_fits = v.room.base_fits;
      limit_le = v.room.limit_le;
      nodes_is = v.room.nodes_is;
      enough = v.room.enough;
      whole = v.room.whole;
      trusted_len = v.room.trusted_len;
    }

    -- In a valid state of a tiered store over two page stores, reading an index in range succeeds
    -- with its page and changes no page, and the store stays valid.
    pub read-Served :
        (out : Page)
        → length out ≡ s.page_size
        → Served tiered_view s
            (read_page sha (operations P) (operations Q) i out s)
            (tiered_view.page s i)
            (tiered_view.page s)
    unfolding read_page on_inner
    read-Served out e =
        let one : Served P.view s.inner (P.read_page i out s.inner) (P.view.page s.inner i)
            (P.view.page s.inner) =
          P.read_page_served i out s.inner v.inner_valid (rw (v.count_is) lt) (rw (v.size_is) e) in
        let held =
          verify_page_hash_lem sha (operations P) Q (record s { inner = one.after })
            (hash_at sha (operations P) Q s) (moved one.after) refl i
            (omega (arith, v.count_le, lt)) v.tree.inner_node v.root_trusted in
        record {
          after = record s {
            inner = one.after;
            hash_store = held.hash_store;
            trusted_hashes = held.trusted_hashes;
          };
          result_is =
              rw
                (
                  check_page_ok s.page_count s.page_size i (length out) lt e,
                  one.result_is,
                  ← v.tree.leaf i lt,
                  held.result_is,
                )
                refl;
          valid = record {
            inner_valid = one.valid;
            size_is = one.size_kept ∙ v.size_is;
            count_is = one.count_kept ∙ v.count_is;
            room = held.room;
            root_trusted = v.root_trusted;
            count_le = v.count_le;
            tree = rw (held.hashes_are, one.pages_are) v.tree;
          };
          pages_are = one.pages_are;
          size_kept = refl;
          count_kept = refl;
        }

    -- In a valid state of a tiered store over two page stores, writing a page of the page size to
    -- an index in range succeeds and changes that page alone, and the store stays valid: its
    -- hashes are those of the changed pages.
    pub write-Served :
        (input : Page)
        → length input ≡ s.page_size
        → Served tiered_view s
            (write_page sha (operations P) (operations Q) i input s)
            tt
            (update (tiered_view.page s) i input)
    unfolding write_page on_inner
    write-Served input e =
        let one : Served P.view s.inner (P.write_page i input s.inner) tt
            (update (P.view.page s.inner) i input) =
          P.write_page_served i input s.inner v.inner_valid (rw (v.count_is) lt)
            (rw (v.size_is) e) in
        let held =
          update_page_hash_lem sha (operations P) Q (record s { inner = one.after })
            (hash_at sha (operations P) Q s) (moved one.after) refl i
            (omega (arith, v.count_le, lt)) (hash_leaf sha s.store_id i input)
            (length-hash_leaf sha s.store_id i input) in
        record {
          after = record s {
            inner = one.after;
            hash_store = held.hash_store;
            trusted_hashes = held.trusted_hashes;
          };
          result_is =
              rw
                (
                  check_page_ok s.page_count s.page_size i (length input) lt e,
                  one.result_is,
                  held.result_is,
                )
                refl;
          valid = record {
            inner_valid = one.valid;
            size_is = one.size_kept ∙ v.size_is;
            count_is = one.count_kept ∙ v.count_is;
            room = held.room;
            root_trusted = v.root_trusted;
            count_le = v.count_le;
            tree =
                rw (held.hashes_are, one.pages_are)
                  (write-IsTree sha s.store_id s.page_count s.leaf_base (P.view.page s.inner) _
                    v.tree v.count_le i input lt);
          };
          pages_are = one.pages_are;
          size_kept = refl;
          count_kept = refl;
        }

  -- A page store with a tiered Merkle tree over it is a page store.
  abbrev pub tiered_pages : PageStore
  tiered_pages = record {
    State = TieredMerklePageStore (operations P) (operations Q);
    view = tiered_view;
    read_page = read_page sha (operations P) (operations Q);
    write_page = write_page sha (operations P) (operations Q);
    read_page_served = λ i out s v lt e. read-Served s v i lt out e;
    write_page_served = λ i input s v lt e. write-Served s v i lt input e;
  }
