-- ===== src/Store.antt =====
-- src/store.rs: page storage. `PageStore` and `PathPageStore` are the traits, with what a client may
-- rely on: in a valid state the operations serve requests in range, reads give the pages last
-- written, and only writes change them. I/O failures are outside these laws.
pub mod Default
pub mod Overwrite
pub mod Stored
pub mod Batches
pub mod Blanket
pub mod Mem
pub mod Operations
pub mod Cached
use oram.Base.{ℕ, refl, ap, ◌∙◌, ◌≡◌, ◌<◌, List, [], ◌∷◌, map, length, All, update}
use oram.Outcome.{Result, ok}
use oram.Outcome.Stateful.{M, continue, pure}

abbrev pub Page : Type 0
Page = List ℕ

-- What can be seen of a store's state.
pub record View (State : Type 0) : Type 1 where
  pub page_size : State → ℕ
  pub page_count : State → ℕ
  pub page : State → ℕ → Page
  pub IsValid : State → Type 0

-- A request that succeeds with `a`, and after which the pages are `pages`.
pub record Served {State A : Type 0} (o : View State) (s : State) (r : Result A × State) (a : A)
    (pages : ℕ → Page) : Type 0 where
  pub after : State
  pub result_is : r ≡ (ok a, after)
  pub valid : o.IsValid after
  pub pages_are : o.page after ≡ pages
  pub size_kept : o.page_size after ≡ o.page_size s
  pub count_kept : o.page_count after ≡ o.page_count s

pub Served-now :
    {State A : Type 0} (o : View State) (s : State) (a : A)
    → o.IsValid s
    → Served o s (ok a, s) a (o.page s)
Served-now o s a v = record {
  after = s;
  result_is = refl;
  valid = v;
  pages_are = refl;
  size_kept = refl;
  count_kept = refl;
}

-- One request after another.
pub Served-then :
    {State A B : Type 0} (o : View State) (s : State) (f : A → M State B) {r : Result A × State}
    {a : A} {b : B} {pages pages' : ℕ → Page} (one : Served o s r a pages)
    → Served o one.after (f a one.after) b pages'
    → Served o s (continue f r) b pages'
Served-then o s f one rest = record {
  after = rest.after;
  result_is = ap (continue f) one.result_is ∙ rest.result_is;
  valid = rest.valid;
  pages_are = rest.pages_are;
  size_kept = rest.size_kept ∙ one.size_kept;
  count_kept = rest.count_kept ∙ one.count_kept;
}

-- What is so after a request, told from before it.
pub Served-since :
    {State A B : Type 0} (o : View State) (s : State) {r : Result A × State} {r' : Result B × State}
    {a : A} {b : B} {pages pages' : ℕ → Page} (one : Served o s r a pages)
    → Served o one.after r' b pages'
    → Served o s r' b pages'
Served-since o s one two = record {
  after = two.after;
  result_is = two.result_is;
  valid = two.valid;
  pages_are = two.pages_are;
  size_kept = two.size_kept ∙ one.size_kept;
  count_kept = two.count_kept ∙ one.count_kept;
}

-- A request whose result is passed on changed.
pub Served-map :
    {State A B : Type 0} (o : View State) (s : State) (k : A → B) {r : Result A × State} {a : A}
    {pages : ℕ → Page}
    → Served o s r a pages
    → Served o s (continue (λ x. pure (k x)) r) (k a) pages
Served-map o s k one = record {
  after = one.after;
  result_is = ap (continue (λ x. pure (k x))) one.result_is;
  valid = one.valid;
  pages_are = one.pages_are;
  size_kept = one.size_kept;
  count_kept = one.count_kept;
}

pub Served-as :
    {State A : Type 0} (o : View State) (s : State) {r : Result A × State} {a a' : A}
    {pages pages' : ℕ → Page}
    → a ≡ a'
    → pages ≡ pages'
    → Served o s r a pages
    → Served o s r a' pages'
Served-as o s e f one = record {
  after = one.after;
  result_is = one.result_is ∙ ap (λ x. (ok x, one.after)) e;
  valid = one.valid;
  pages_are = one.pages_are ∙ f;
  size_kept = one.size_kept;
  count_kept = one.count_kept;
}

-- The pages of `path` written in turn; a surplus on either side is passed over.
abbrev pub overwrite : {A : Type 0} → (ℕ → A) → List ℕ → List A → ℕ → A
overwrite f [] pages = f
overwrite f (i ∷ path) [] = f
overwrite f (i ∷ path) (page ∷ pages) = overwrite (update f i page) path pages

abbrev pub overwrite_paths : (ℕ → Page) → List (List ℕ) → List (List Page) → ℕ → Page
overwrite_paths f [] pages = f
overwrite_paths f (path ∷ paths) [] = f
overwrite_paths f (path ∷ paths) (page ∷ pages) =
    overwrite_paths (overwrite f path page) paths pages

-- As many pages as the path has nodes, each of one size.
pub record Fits (page_size : ℕ) (path : List ℕ) (pages : List Page) : Type 0 where
  pub many : length path ≡ length pages
  pub sized : All (λ p. length p ≡ page_size) pages

abbrev pub AllFit : ℕ → List (List ℕ) → List (List Page) → Type 0
AllFit n [] [] = Unit {0}
AllFit n [] (pages ∷ rest) = ⊥
AllFit n (path ∷ paths) [] = ⊥
AllFit n (path ∷ paths) (pages ∷ rest) = Fits n path pages × AllFit n paths rest

abbrev pub InRange : ℕ → List ℕ → Type 0
InRange count = All (λ i. i < count)

-- `trait PageStore`, without the default methods (`Store.Default`). `read_page` returns what the
-- buffer `out` then holds.
pub record PageStore : Type 1 where
  pub State : Type 0
  pub view : View State
  pub read_page : ℕ → Page → M State Page
  pub write_page : ℕ → Page → M State (Unit {0})
  pub read_page_served :
      (i : ℕ) (out : Page) (s : State)
      → view.IsValid s
      → i < view.page_count s
      → length out ≡ view.page_size s
      → Served view s (read_page i out s) (view.page s i) (view.page s)
  pub write_page_served :
      (i : ℕ) (input : Page) (s : State)
      → view.IsValid s
      → i < view.page_count s
      → length input ≡ view.page_size s
      → Served view s (write_page i input s) tt (update (view.page s) i input)

-- `trait PageStore` with `read_pages` and `write_pages`, which have default bodies that a store may
-- override.
pub record BatchPageStore : Type 1 where
  pub base : PageStore
  pub read_pages : List ℕ → M base.State (List Page)
  pub write_pages : List ℕ → List Page → M base.State (Unit {0})
  pub read_pages_served :
      (path : List ℕ) (s : base.State)
      → base.view.IsValid s
      → InRange (base.view.page_count s) path
      → Served base.view s (read_pages path s) (map (base.view.page s) path) (base.view.page s)
  pub write_pages_served :
      (path : List ℕ) (pages : List Page) (s : base.State)
      → base.view.IsValid s
      → InRange (base.view.page_count s) path
      → Fits (base.view.page_size s) path pages
      → Served base.view s (write_pages path pages s) tt (overwrite (base.view.page s) path pages)

-- `trait PathPageStore`.
pub record PathPageStore : Type 1 where
  pub State : Type 0
  pub view : View State
  pub read_path_pages : List ℕ → M State (List Page)
  pub write_path_pages : List ℕ → List Page → M State (Unit {0})
  pub read_paths_pages : List (List ℕ) → M State (List (List Page))
  pub write_paths_pages : List (List ℕ) → List (List Page) → M State (Unit {0})
  pub read_path_served :
      (path : List ℕ) (s : State)
      → view.IsValid s
      → InRange (view.page_count s) path
      → Served view s (read_path_pages path s) (map (view.page s) path) (view.page s)
  pub write_path_served :
      (path : List ℕ) (pages : List Page) (s : State)
      → view.IsValid s
      → InRange (view.page_count s) path
      → Fits (view.page_size s) path pages
      → Served view s (write_path_pages path pages s) tt (overwrite (view.page s) path pages)
  pub read_paths_served :
      (paths : List (List ℕ)) (s : State)
      → view.IsValid s
      → All (InRange (view.page_count s)) paths
      → Served view s (read_paths_pages paths s) (map (map (view.page s)) paths) (view.page s)
  pub write_paths_served :
      (paths : List (List ℕ)) (pages : List (List Page)) (s : State)
      → view.IsValid s
      → All (InRange (view.page_count s)) paths
      → AllFit (view.page_size s) paths pages
      → Served view s
          (write_paths_pages paths pages s)
          tt
          (overwrite_paths (view.page s) paths pages)
