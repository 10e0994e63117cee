-- ===== src/Store/Blanket.antt =====
-- src/store.rs, `impl<T: PageStore> PathPageStore for T`: paths as runs of pages.
use mathlib.Core.List.{map-append}
use oram.Base.{
  ℕ, suc, ◌+◌, ◌≡◌, refl, sym, ap, ap₂, ◌∙◌, List, [], ◌∷◌, ◌++◌, map, length, length-map, take,
  drop, All, All-append, take-append, drop-append, update, not, ◌==◌, eq→==, arith, if◌then◌else◌,
  length-append,
}
use oram.Base.Bytes.{concat}
use oram.Outcome.{Result, ok, err, invalid_input, ◌>>=◌}
use oram.Outcome.Stateful.{M, continue, pure}
use oram.Store.{
  Page, Served, Served-map, Served-as, overwrite, overwrite_paths, Fits, AllFit, InRange,
  BatchPageStore, PathPageStore,
}

-- The pages of a flat run, handed out to the paths in order.
pub regroup : List (List ℕ) → List Page → List (List Page)
regroup [] flat = []
regroup (path ∷ paths) flat = take (length path) flat ∷ regroup paths (drop (length path) flat)

-- The checks of `write_paths_pages`, with the pages in one run.
pub flatten_pages : List (List ℕ) → List (List Page) → Result (List Page)
flatten_pages [] pages = ok []
flatten_pages (path ∷ paths) [] = ok []
flatten_pages (path ∷ paths) (path_pages ∷ pages) =
    if not (length path == length path_pages)
    then err invalid_input
    else flatten_pages paths pages >>= λ flat. ok (path_pages ++ flat)

regroup_lem :
    (f : ℕ → Page) (paths : List (List ℕ))
    → regroup paths (map f (concat paths)) ≡ map (map f) paths
unfolding regroup concat
regroup_lem f [] = refl
regroup_lem f (path ∷ paths) = rw (map-append f path (concat paths)) (
    ap₂ ◌∷◌ (take-append (length path) (map f path) (map f (concat paths)) (length-map path f)) (
      ap (regroup paths)
        (drop-append (length path) (map f path) (map f (concat paths)) (length-map path f))
      ∙ regroup_lem f paths))

flatten_pages_lem :
    (n : ℕ) (paths : List (List ℕ)) (pages : List (List Page))
    → AllFit n paths pages
    → flatten_pages paths pages ≡ ok (concat pages)
unfolding flatten_pages concat
flatten_pages_lem n [] [] h = refl
flatten_pages_lem n [] (q ∷ pages) h = absurd h
flatten_pages_lem n (path ∷ paths) [] h = absurd h
flatten_pages_lem n (path ∷ paths) (q ∷ pages) h =
    rw (eq→== (length path) (length q) h.0.many) (rw (flatten_pages_lem n paths pages h.1))

concat-Fits :
    (n : ℕ) (paths : List (List ℕ)) (pages : List (List Page))
    → AllFit n paths pages
    → Fits n (concat paths) (concat pages)
unfolding concat
concat-Fits n [] [] h = record { many = refl; sized = tt }
concat-Fits n [] (q ∷ pages) h = absurd h
concat-Fits n (path ∷ paths) [] h = absurd h
concat-Fits n (path ∷ paths) (q ∷ pages) h =
    let rest : Fits n (concat paths) (concat pages) = concat-Fits n paths pages h.1 in
    record {
      many =
          length-append path (concat paths)
          ∙ (ap₂ ◌+◌ h.0.many rest.many ∙ sym (length-append q (concat pages)));
      sized = All-append _ q (concat pages) h.0.sized rest.sized;
    }

overwrite-append :
    (path path' : List ℕ) (pages pages' : List Page) (f : ℕ → Page)
    → length path ≡ length pages
    → overwrite f (path ++ path') (pages ++ pages')
      ≡ overwrite (overwrite f path pages) path' pages'
overwrite-append [] path' [] pages' f e = refl
overwrite-append [] path' (q ∷ pages) pages' f e = absurd (omega arith)
overwrite-append (i ∷ path) path' [] pages' f e = absurd (omega arith)
overwrite-append (i ∷ path) path' (q ∷ pages) pages' f e =
    overwrite-append path path' pages pages' (update f i q) (omega arith)

overwrite-concat :
    (n : ℕ) (paths : List (List ℕ)) (pages : List (List Page)) (f : ℕ → Page)
    → AllFit n paths pages
    → overwrite f (concat paths) (concat pages) ≡ overwrite_paths f paths pages
unfolding concat
overwrite-concat n [] [] f h = refl
overwrite-concat n [] (q ∷ pages) f h = absurd h
overwrite-concat n (path ∷ paths) [] f h = absurd h
overwrite-concat n (path ∷ paths) (q ∷ pages) f h =
    overwrite-append path (concat paths) q (concat pages) f h.0.many
    ∙ overwrite-concat n paths pages (overwrite f path q) h.1

concat-InRange :
    (count : ℕ) (paths : List (List ℕ)) → All (InRange count) paths → InRange count (concat paths)
unfolding concat
concat-InRange count [] h = tt
concat-InRange count (path ∷ paths) h =
    All-append _ path (concat paths) h.0 (concat-InRange count paths h.1)

length-AllFit :
    (n : ℕ) (paths : List (List ℕ)) (pages : List (List Page))
    → AllFit n paths pages
    → length paths ≡ length pages
length-AllFit n [] [] h = refl
length-AllFit n [] (q ∷ pages) h = absurd h
length-AllFit n (path ∷ paths) [] h = absurd h
length-AllFit n (path ∷ paths) (q ∷ pages) h = ap suc (length-AllFit n paths pages h.1)

module _ (P : BatchPageStore) where
  open P use {base, read_pages, write_pages, read_pages_served, write_pages_served}
  open base use {State, view}

  pub read_paths_pages : List (List ℕ) → M State (List (List Page))
  unfolding regroup
  read_paths_pages paths s =
      continue (λ flat_pages. pure (regroup paths flat_pages)) (read_pages (concat paths) s)

  pub write_paths_pages : List (List ℕ) → List (List Page) → M State (Unit {0})
  unfolding flatten_pages
  write_paths_pages paths pages s =
      if not (length paths == length pages)
      then (err invalid_input, s)
      else continue (λ flat_pages. write_pages (concat paths) flat_pages)
          (flatten_pages paths pages, s)

  -- In a valid state of any page store whose `read_pages`, be it the default or its own, serves
  -- pages in range, reading paths in range succeeds with the pages of each path in turn and
  -- changes no page.
  pub read_paths_pages-Served :
      (paths : List (List ℕ)) (s : State)
      → view.IsValid s
      → All (InRange (view.page_count s)) paths
      → Served view s (read_paths_pages paths s) (map (map (view.page s)) paths) (view.page s)
  unfolding read_paths_pages
  read_paths_pages-Served paths s v h =
      let flat : Served view s (read_pages (concat paths) s) (map (view.page s) (concat paths))
          (view.page s) =
        read_pages_served (concat paths) s v (concat-InRange _ paths h) in
      Served-as view s (regroup_lem (view.page s) paths) refl
        (Served-map view s (regroup paths) flat)

  -- In a valid state of any page store whose `write_pages`, be it the default or its own, serves
  -- pages in range, writing to paths in range one page of the right size per node succeeds, and
  -- the pages are those before with the paths overwritten in turn.
  pub write_paths_pages-Served :
      (paths : List (List ℕ)) (pages : List (List Page)) (s : State)
      → view.IsValid s
      → All (InRange (view.page_count s)) paths
      → AllFit (view.page_size s) paths pages
      → Served view s
          (write_paths_pages paths pages s)
          tt
          (overwrite_paths (view.page s) paths pages)
  unfolding write_paths_pages
  write_paths_pages-Served paths pages s v h z =
      let n : ℕ = view.page_size s in
      rw (eq→== (length paths) (length pages) (length-AllFit n paths pages z)) (
        rw (flatten_pages_lem n paths pages z) (
          rw (← overwrite-concat n paths pages (view.page s) z) (
            write_pages_served (concat paths) (concat pages) s v (concat-InRange _ paths h)
              (concat-Fits n paths pages z))))

  -- Every page store is a path store, and keeps the promises of one.
  abbrev pub path_store : PathPageStore
  path_store = record {
    State = State;
    view = view;
    read_path_pages = read_pages;
    write_path_pages = write_pages;
    read_paths_pages = read_paths_pages;
    write_paths_pages = write_paths_pages;
    read_path_served = read_pages_served;
    write_path_served = write_pages_served;
    read_paths_served = read_paths_pages-Served;
    write_paths_served = write_paths_pages-Served;
  }
