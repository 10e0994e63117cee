-- ===== src/Store/Stored.antt =====
-- src/store.rs: a store by its pages in range. Those beyond the page count are left open.
use oram.Base.{
  ℕ, ◌<◌, ◌≡◌, refl, ap, ap₂, ◌∙◌, List, [], ◌∷◌, map, update, ◌==◌, Bool-cases, inl, inr,
}
use oram.Outcome.{Result, ok}
use oram.Store.Overwrite.{overwrite-map}
use oram.Store.{Page, View, Served, overwrite, Fits, InRange, PathPageStore}

pub record IsStored {State : Type 0} (o : View State) (s : State) (page_size page_count : ℕ)
    (pages : ℕ → Page) : Type 0 where
  pub valid : o.IsValid s
  pub size_is : o.page_size s ≡ page_size
  pub count_is : o.page_count s ≡ page_count
  pub pages_are : (n : ℕ) → n < page_count → o.page s n ≡ pages n

-- A request that succeeds with `a`, and after which the pages in range are `pages`.
pub record Answered {State A : Type 0} (o : View State) (r : Result A × State) (a : A)
    (page_size page_count : ℕ) (pages : ℕ → Page) : Type 0 where
  pub after : State
  pub result_is : r ≡ (ok a, after)
  pub stored : IsStored o after page_size page_count pages

pub map-in_range :
    (f g : ℕ → Page) (count : ℕ) (path : List ℕ)
    → ((n : ℕ) → n < count → f n ≡ g n)
    → InRange count path
    → map f path ≡ map g path
map-in_range f g count [] e h = refl
map-in_range f g count (i ∷ path) e h = ap₂ ◌∷◌ (e i h.0) (map-in_range f g count path e h.1)

pub overwrite-in_range :
    (f g : ℕ → Page) (count : ℕ) (path : List ℕ) (pages : List Page)
    → ((n : ℕ) → n < count → f n ≡ g n)
    → (n : ℕ) → n < count
    → overwrite f path pages n ≡ overwrite g path pages n
overwrite-in_range f g count [] pages e = e
overwrite-in_range f g count (i ∷ path) [] e = e
overwrite-in_range f g count (i ∷ path) (x ∷ pages) e =
    overwrite-in_range (update f i x) (update g i x) count path pages
      (λ n h. elim (Bool-cases (i == n)) [ inl t ↦ rw t | inr t ↦ rw t (e n h) ])

module _ (P : PathPageStore) where
  open P use {State, view}

  module _ (s : State) (page_size page_count : ℕ) (pages : ℕ → Page)
      (v : IsStored view s page_size page_count pages) (path : List ℕ)
      (h : InRange page_count path) where
    range_of : InRange (view.page_count s) path
    range_of = rw (v.count_is) h

    pub read_path-Answered :
        Answered view (P.read_path_pages path s) (map pages path) page_size page_count pages
    read_path-Answered =
        let r : Served view s (P.read_path_pages path s) (map (view.page s) path) (view.page s) =
          P.read_path_served path s v.valid range_of in
        record {
          after = r.after;
          result_is =
              r.result_is
              ∙ ap (λ x. (ok x, r.after))
                  (map-in_range (view.page s) pages page_count path v.pages_are h);
          stored = record {
            valid = r.valid;
            size_is = r.size_kept ∙ v.size_is;
            count_is = r.count_kept ∙ v.count_is;
            pages_are = λ n lt. ap (λ f. f n) r.pages_are ∙ v.pages_are n lt;
          };
        }

    pub write_path-Answered :
        (written : List Page)
        → Fits page_size path written
        → Answered view
            (P.write_path_pages path written s)
            tt
            page_size
            page_count
            (overwrite pages path written)
    write_path-Answered written z =
        let r : Served view s (P.write_path_pages path written s) tt
            (overwrite (view.page s) path written) =
          P.write_path_served path written s v.valid range_of (rw (v.size_is) z) in
        record {
          after = r.after;
          result_is = r.result_is;
          stored = record {
            valid = r.valid;
            size_is = r.size_kept ∙ v.size_is;
            count_is = r.count_kept ∙ v.count_is;
            pages_are = λ n lt.
                ap (λ f. f n) r.pages_are
                ∙ overwrite-in_range (view.page s) pages page_count path written v.pages_are n lt;
          };
        }

-- A store whose pages are the pages of items, by reads and writes of whole paths of items.
module _ {B : Type 0} (P : PathPageStore) (page : B → Page) (tree : ℕ → B)
    (page_size page_count : ℕ) (path : List ℕ) (h : InRange page_count path) (s : P.State)
    (v : IsStored P.view s page_size page_count (λ n. page (tree n))) where
  pub read_tree-Answered :
      Answered P.view
        (P.read_path_pages path s)
        (map page (map tree path))
        page_size
        page_count
        (λ n. page (tree n))
  read_tree-Answered =
      let r : Answered P.view (P.read_path_pages path s) (map (λ n. page (tree n)) path) page_size
          page_count (λ n. page (tree n)) =
        read_path-Answered P s page_size page_count _ v path h in
      record {
        after = r.after;
        result_is = r.result_is ∙ ap (λ x. (ok x, r.after)) (map-twice path);
        stored = r.stored;
      }
    where
      map-twice : (is : List ℕ) → map (λ n. page (tree n)) is ≡ map page (map tree is)
      map-twice [] = refl
      map-twice (i ∷ is) = ap (λ xs. page (tree i) ∷ xs) (map-twice is)

  pub write_tree-Answered :
      (items : List B)
      → Fits page_size path (map page items)
      → Answered P.view
          (P.write_path_pages path (map page items) s)
          tt
          page_size
          page_count
          (λ n. page (overwrite tree path items n))
  write_tree-Answered items z =
      rw (← overwrite-map page tree path items)
        (write_path-Answered P s page_size page_count _ v path h (map page items) z)
