-- ===== src/Store/Default.antt =====
-- src/store.rs, the default methods of `PageStore`: several pages one after the other.
use oram.Base.{
  ℕ, ◌≡◌, refl, sym, ap, ◌∙◌, List, [], ◌∷◌, map, length, length-replicate, All, update, replicate,
  not, ◌==◌, eq→==, if◌then◌else◌,
}
use oram.Outcome.{err, invalid_input}
use oram.Outcome.Stateful.{M, pure, lift, ◌>>=◌, ◌>>◌}
use oram.Store.{
  Page, Served, Served-now, Served-then, Served-map, Served-as, overwrite, Fits, InRange, PageStore,
  BatchPageStore,
}

module _ (P : PageStore) where
  open P use {State, view, read_page, write_page, read_page_served, write_page_served}

  -- The loop of `read_pages`.
  read_each : ℕ → List ℕ → M State (List Page)
  read_each page_size [] = pure []
  read_each page_size (page_idx ∷ page_indices) =
      read_page page_idx (replicate page_size 0) >>= λ page.
      read_each page_size page_indices >>= λ pages. pure (page ∷ pages)

  pub read_pages : List ℕ → M State (List Page)
  unfolding read_each
  read_pages page_indices s = read_each (view.page_size s) page_indices s

  -- The loop of `write_pages`, over the pairs of `zip`.
  write_each : ℕ → List ℕ → List Page → M State (Unit {0})
  write_each page_size [] pages = pure tt
  write_each page_size (page_idx ∷ page_indices) [] = pure tt
  write_each page_size (page_idx ∷ page_indices) (page ∷ pages) =
      if not (length page == page_size)
      then lift (err invalid_input)
      else write_page page_idx page >> write_each page_size page_indices pages

  pub write_pages : List ℕ → List Page → M State (Unit {0})
  unfolding write_each
  write_pages page_indices pages s =
      if not (length page_indices == length pages)
      then (err invalid_input, s)
      else write_each (view.page_size s) page_indices pages s

  read_each-Served :
      (n : ℕ) (path : List ℕ) (s : State)
      → n ≡ view.page_size s
      → view.IsValid s
      → InRange (view.page_count s) path
      → Served view s (read_each n path s) (map (view.page s) path) (view.page s)
  unfolding read_each
  read_each-Served n [] s e v h = Served-now view s [] v
  read_each-Served n (i ∷ path) s e v h =
      let one : Served view s (read_page i (replicate n 0) s) (view.page s i) (view.page s) =
        read_page_served i (replicate n 0) s v h.0 (length-replicate n 0 ∙ e) in
      let t : State = one.after in
      let rest : Served view t (read_each n path t) (map (view.page s) path) (view.page s) =
        Served-as view t (ap (λ f. map f path) one.pages_are) one.pages_are
          (read_each-Served n path t (e ∙ sym one.size_kept) one.valid (rw one.count_kept h.1)) in
      Served-then view s (λ page. read_each n path >>= λ pages. pure (page ∷ pages)) one
        (Served-map view t (◌∷◌ (view.page s i)) rest)

  -- The pages asked for come in order.
  pub read_pages-Served :
      (path : List ℕ) (s : State)
      → view.IsValid s
      → InRange (view.page_count s) path
      → Served view s (read_pages path s) (map (view.page s) path) (view.page s)
  unfolding read_pages
  read_pages-Served path s v h = read_each-Served (view.page_size s) path s refl v h

  write_each-Served :
      (n : ℕ) (path : List ℕ) (pages : List Page) (s : State)
      → n ≡ view.page_size s
      → view.IsValid s
      → InRange (view.page_count s) path
      → All (λ p. length p ≡ n) pages
      → Served view s (write_each n path pages s) tt (overwrite (view.page s) path pages)
  unfolding write_each
  write_each-Served n [] pages s e v h z = Served-now view s tt v
  write_each-Served n (i ∷ path) [] s e v h z = Served-now view s tt v
  write_each-Served n (i ∷ path) (q ∷ pages) s e v h z =
      let one : Served view s (write_page i q s) tt (update (view.page s) i q) =
        write_page_served i q s v h.0 (z.0 ∙ e) in
      let t : State = one.after in
      let rest : Served view t (write_each n path pages t) tt
          (overwrite (update (view.page s) i q) path pages) =
        Served-as view t refl (ap (λ f. overwrite f path pages) one.pages_are) (
          write_each-Served n path pages t (e ∙ sym one.size_kept) one.valid (rw one.count_kept h.1)
            z.1) in
      rw (eq→== (length q) n z.0) (Served-then view s (λ _. write_each n path pages) one rest)

  -- The pages are written in order, a later one over an earlier one of the same index.
  pub write_pages-Served :
      (path : List ℕ) (pages : List Page) (s : State)
      → view.IsValid s
      → InRange (view.page_count s) path
      → Fits (view.page_size s) path pages
      → Served view s (write_pages path pages s) tt (overwrite (view.page s) path pages)
  unfolding write_pages
  write_pages-Served path pages s v h z =
      rw (eq→== (length path) (length pages) z.many)
        (write_each-Served (view.page_size s) path pages s refl v h z.sized)

-- A store that overrides neither method.
abbrev pub with_defaults : PageStore → BatchPageStore
with_defaults P = record {
  base = P;
  read_pages = read_pages P;
  write_pages = write_pages P;
  read_pages_served = read_pages-Served P;
  write_pages_served = write_pages-Served P;
}
