-- ===== src/Store/Batches.antt =====
-- src/store.rs: a store by its pages in range, for requests of several paths.
use oram.Base.{ℕ, ◌<◌, ◌≡◌, refl, sym, ap, ap₂, ◌∙◌, List, [], ◌∷◌, map, length, length-map, All}
use oram.Outcome.{ok}
use oram.Store.Overwrite.{overwrite-same}
use oram.Store.{Page, overwrite, overwrite_paths, AllFit, InRange, PathPageStore}
use oram.Store.Stored.{IsStored, Answered, map-in_range, overwrite-in_range}

overwrite_paths-in_range :
    (f g : ℕ → Page) (count : ℕ) (paths : List (List ℕ)) (pages : List (List Page))
    → ((n : ℕ) → n < count → f n ≡ g n)
    → (n : ℕ) → n < count
    → overwrite_paths f paths pages n ≡ overwrite_paths g paths pages n
overwrite_paths-in_range f g count [] pages e = e
overwrite_paths-in_range f g count (path ∷ paths) [] e = e
overwrite_paths-in_range f g count (path ∷ paths) (p ∷ pages) e =
    overwrite_paths-in_range (overwrite f path p) (overwrite g path p) count paths pages
      (overwrite-in_range f g count path p e)

maps-in_range :
    (f g : ℕ → Page) (count : ℕ) (paths : List (List ℕ))
    → ((n : ℕ) → n < count → f n ≡ g n)
    → All (InRange count) paths
    → map (map f) paths ≡ map (map g) paths
maps-in_range f g count [] e h = refl
maps-in_range f g count (path ∷ paths) e h =
    ap₂ ◌∷◌ (map-in_range f g count path e h.0) (maps-in_range f g count paths e h.1)

module _ (P : PathPageStore) (s : P.State) (page_size page_count : ℕ) (pages : ℕ → Page)
    (v : IsStored P.view s page_size page_count pages) (paths : List (List ℕ))
    (h : All (InRange page_count) paths) where
  ranges_of : All (InRange (P.view.page_count s)) paths
  ranges_of = rw (v.count_is) h

  pub read_paths-Answered :
      Answered P.view
        (P.read_paths_pages paths s)
        (map (map pages) paths)
        page_size
        page_count
        pages
  read_paths-Answered =
      let r = P.read_paths_served paths s v.valid ranges_of in
      record {
        after = r.after;
        result_is =
            r.result_is
            ∙ ap (λ x. (ok x, r.after))
                (maps-in_range (P.view.page s) pages page_count paths v.pages_are h);
        stored = record {
          valid = r.valid;
          size_is = r.size_kept ∙ v.size_is;
          count_is = r.count_kept ∙ v.count_is;
          pages_are = λ n lt. ap (λ f. f n) r.pages_are ∙ v.pages_are n lt;
        };
      }

  pub write_paths-Answered :
      (written : List (List Page))
      → AllFit page_size paths written
      → Answered P.view
          (P.write_paths_pages paths written s)
          tt
          page_size
          page_count
          (overwrite_paths pages paths written)
  write_paths-Answered written z =
      let r = P.write_paths_served paths written s v.valid ranges_of (rw (v.size_is) z) in
      record {
        after = r.after;
        result_is = r.result_is;
        stored = record {
          valid = r.valid;
          size_is = r.size_kept ∙ v.size_is;
          count_is = r.count_kept ∙ v.count_is;
          pages_are = λ n lt.
              ap (λ f. f n) r.pages_are
              ∙ overwrite_paths-in_range (P.view.page s) pages page_count paths written v.pages_are
                  n lt;
        };
      }

pub overwrite_paths-same :
    (f : ℕ → Page) (paths : List (List ℕ)) → overwrite_paths f paths (map (map f) paths) ≡ f
overwrite_paths-same f [] = refl
overwrite_paths-same f (path ∷ paths) =
    ap (λ g. overwrite_paths g paths (map (map f) paths)) (overwrite-same f path)
    ∙ overwrite_paths-same f paths

pub AllFit-same :
    (n count : ℕ) (f : ℕ → Page) (paths : List (List ℕ))
    → ((i : ℕ) → i < count → length (f i) ≡ n)
    → All (InRange count) paths
    → AllFit n paths (map (map f) paths) × All (All (λ i. length (f i) ≡ n)) paths
AllFit-same n count f [] e h = (tt, tt)
AllFit-same n count f (path ∷ paths) e h =
    let rest = AllFit-same n count f paths e h.1 in
    (
      (record { many = sym (length-map path f); sized = sizes path h.0 }, rest.0),
      (ids path h.0, rest.1),
    )
  where
    ids : (is : List ℕ) → InRange count is → All (λ i. length (f i) ≡ n) is
    ids [] u = tt
    ids (i ∷ is) u = (e i u.0, ids is u.1)

    sizes : (is : List ℕ) → InRange count is → All (λ q. length q ≡ n) (map f is)
    sizes [] u = tt
    sizes (i ∷ is) u = (e i u.0, sizes is u.1)
