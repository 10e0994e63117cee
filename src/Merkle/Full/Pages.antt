-- ===== src/Merkle/Full/Pages.antt =====
-- src/merkle.rs, `MerklePageStore` over a store that keeps its promises: it keeps them itself.
use oram.Base.{ℕ, ◌+◌, ◌<◌, ◌≡◌, refl, ap, ◌∙◌, length, update, arith}
use oram.Outcome.{ok, index}
use oram.Store.{Page, View, Served, PageStore}
use oram.Store.Mem.Laws.{check_page_ok}
use oram.Store.Operations.{operations}
use oram.Merkle.{Sha256, hash_leaf}
use oram.Merkle.Hashes.{hash_eq_self}
use oram.Merkle.Commit.{write-IsTree}
use oram.Merkle.Tree.Refine.{index_ok, update_leaf_lem}
use oram.Merkle.Full.{MerklePageStore, on_inner, read_page, write_page}
use oram.Merkle.Full.Sealed.{IsSealed}

module _ (sha : Sha256) (P : PageStore) where
  -- The inner store is valid and of the sizes noted, and the hashes are those of its pages.
  pub record IsValid (s : MerklePageStore (operations P)) : Type 0 where
    pub inner_valid : P.view.IsValid s.inner
    pub size_is : P.view.page_size s.inner ≡ s.page_size
    pub count_is : P.view.page_count s.inner ≡ s.page_count
    pub sealed : IsSealed sha s (P.view.page s.inner)

  abbrev pub merkle_view : View (MerklePageStore (operations P))
  merkle_view = record {
    page_size = λ s. s.page_size;
    page_count = λ s. s.page_count;
    page = λ s. P.view.page s.inner;
    IsValid = IsValid;
  }

  pub read-Served :
      (i : ℕ) (out : Page) (s : MerklePageStore (operations P))
      → IsValid s
      → i < s.page_count
      → length out ≡ s.page_size
      → Served merkle_view s
          (read_page sha (operations P) i out s)
          (merkle_view.page s i)
          (merkle_view.page s)
  unfolding read_page on_inner
  read-Served i out s v lt e =
      let one : Served P.view s.inner (P.read_page i out s.inner) (P.view.page s.inner i)
          (P.view.page s.inner) =
        P.read_page_served i out s.inner v.inner_valid (rw (v.count_is) lt) (rw (v.size_is) e) in
      let found : index s.hashes (s.leaf_base + i)
          ≡ ok (hash_leaf sha s.store_id i (P.view.page s.inner i)) =
        index_ok s.hashes (s.leaf_base + i) (omega (arith, v.sealed.sized, v.sealed.room, lt))
        ∙ ap ok (v.sealed.tree.leaf i lt) in
      record {
        after = record s { inner = one.after };
        result_is =
            rw
              (
                check_page_ok s.page_count s.page_size i (length out) lt e,
                one.result_is,
                found,
                hash_eq_self (hash_leaf sha s.store_id i (P.view.page s.inner i)),
              )
              refl;
        valid = record {
          inner_valid = one.valid;
          size_is = one.size_kept ∙ v.size_is;
          count_is = one.count_kept ∙ v.count_is;
          sealed =
              rw (one.pages_are)
                (record { tree = v.sealed.tree; sized = v.sealed.sized; room = v.sealed.room });
        };
        pages_are = one.pages_are;
        size_kept = refl;
        count_kept = refl;
      }

  pub write-Served :
      (i : ℕ) (input : Page) (s : MerklePageStore (operations P))
      → IsValid s
      → i < s.page_count
      → length input ≡ s.page_size
      → Served merkle_view s
          (write_page sha (operations P) i input s)
          tt
          (update (merkle_view.page s) i input)
  unfolding write_page on_inner
  write-Served i input s v lt e =
      let one : Served P.view s.inner (P.write_page i input s.inner) tt
          (update (P.view.page s.inner) i input) =
        P.write_page_served i input s.inner v.inner_valid (rw (v.count_is) lt) (rw (v.size_is) e) in
      let r =
        update_leaf_lem sha s.leaf_base (s.leaf_base + i) (hash_leaf sha s.store_id i input)
          s.hashes v.sealed.sized (omega (arith, v.sealed.room, lt)) in
      record {
        after = record s { inner = one.after; hashes = r.hashes };
        result_is =
            rw
              (
                check_page_ok s.page_count s.page_size i (length input) lt e,
                one.result_is,
                r.result_is,
              )
              refl;
        valid = record {
          inner_valid = one.valid;
          size_is = one.size_kept ∙ v.size_is;
          count_is = one.count_kept ∙ v.count_is;
          sealed = rw (one.pages_are) (record {
            tree = rw (r.reads) (
                write-IsTree sha s.store_id s.page_count s.leaf_base (P.view.page s.inner) _
                  v.sealed.tree v.sealed.room i input lt);
            sized = r.sized;
            room = v.sealed.room;
          });
        };
        pages_are = one.pages_are;
        size_kept = refl;
        count_kept = refl;
      }

  -- A page store with a Merkle tree over it is a page store.
  abbrev pub merkle_pages : PageStore
  merkle_pages = record {
    State = MerklePageStore (operations P);
    view = merkle_view;
    read_page = read_page sha (operations P);
    write_page = write_page sha (operations P);
    read_page_served = read-Served;
    write_page_served = write-Served;
  }
