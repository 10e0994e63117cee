-- ===== src/Store/Cached/Laws.antt =====
-- src/store.rs, `FrontCachedPageStore`: it keeps the promises of a page store.
use oram.Base.{
  ℕ, ◌*◌, ◌<◌, ◌≡◌, refl, sym, ap, ◌∙◌, fun_ext, true, false, ◌∷◌, [], length, get_or, ltb, ◌==◌,
  update, Bool-cases, inl, inr, if◌then◌else◌, arith,
}
use oram.Base.Bytes.{slice, splice}
use oram.Outcome.Stateful.{M}
use oram.Store.{Page, Served, Served-as, PageStore}
use oram.Store.Mem.Laws.{check_page_ok}
use oram.Store.Mem.Slices.{length-splice, slice-splice}
use oram.Store.Operations.{operations}
use oram.Store.Cached.Valid.{
  IsCached, cached_view, in_cache, cached_page_ok, set_dirty_ok, flags_kept, flag_after,
}
use oram.Store.Cached.{FrontCachedPageStore, on_inner, read_page, write_cached, write_page}

module _ (P : PageStore) where
  -- A request that the inner store serves.
  inner-Served :
      {A : Type 0} (s : FrontCachedPageStore (operations P)) (m : M P.State A) {a : A}
      {pages : ℕ → Page}
      → IsCached P s
      → ((j : ℕ) → j < s.cached_pages → pages j ≡ P.view.page s.inner j)
      → Served P.view s.inner (m s.inner) a pages
      → Served (cached_view P) s (on_inner (operations P) m s) a (λ i.
        if ltb i s.cached_pages then slice (i * s.page_size) s.page_size s.cached else pages i)
  unfolding on_inner
  inner-Served s m v keeps one = record {
    after = record s { inner = one.after };
    result_is = rw one.result_is refl;
    valid = record {
      valid = one.valid;
      size_is = v.size_is ∙ sym one.size_kept;
      whole = v.whole;
      flags = v.flags;
      clean = λ j below off. ap (λ g. g j) one.pages_are ∙ (keeps j below ∙ v.clean j below off);
    };
    pages_are =
        ap
          (λ f i.
            if ltb i s.cached_pages then slice (i * s.page_size) s.page_size s.cached else f i)
          one.pages_are;
    size_kept = refl;
    count_kept = one.count_kept;
  }

  pub read_page-Served :
      (i : ℕ) (out : Page) (s : FrontCachedPageStore (operations P))
      → IsCached P s
      → i < P.view.page_count s.inner
      → length out ≡ s.page_size
      → Served
          (cached_view P)
          s
          (read_page (operations P) i out s)
          ((cached_view P).page s i)
          ((cached_view P).page s)
  unfolding read_page on_inner
  read_page-Served i out s v lt e =
      rw (check_page_ok (P.view.page_count s.inner) s.page_size i (length out) lt e)
        (elim (Bool-cases (ltb i s.cached_pages)) [
          | inl t ↦ rw t (record {
            after = s;
            result_is = rw (cached_page_ok P s i (in_cache P s i v t)) refl;
            valid = v;
            pages_are = refl;
            size_kept = refl;
            count_kept = refl;
          })
          | inr t ↦ rw t (
              Served-as (cached_view P) s refl refl (
                inner-Served s (P.read_page i out) v (λ j below. refl)
                  (P.read_page_served i out s.inner v.valid lt (e ∙ v.size_is))))
        ])

  update_missed :
      (s : FrontCachedPageStore (operations P)) (i : ℕ) (input : Page) (old : ℕ → Page)
      → ltb i s.cached_pages ≡ false
      → (j : ℕ)
      → (if ltb j s.cached_pages
          then slice (j * s.page_size) s.page_size s.cached
          else update old i input j)
        ≡ update
            (λ k.
              if ltb k s.cached_pages then slice (k * s.page_size) s.page_size s.cached else old k)
            i
            input
            j
  update_missed s i input old t j = elim (Bool-cases (i == j)) [
    | inl u ↦ let no : ltb j s.cached_pages ≡ false = ground (arith, t, u) in rw u (rw no refl)
    | inr u ↦ rw u refl
  ]

  update_cached :
      (s : FrontCachedPageStore (operations P)) (i : ℕ) (input : Page)
      → IsCached P s
      → ltb i s.cached_pages ≡ true
      → length input ≡ s.page_size
      → (j : ℕ)
      → (if ltb j s.cached_pages
          then slice (j * s.page_size) s.page_size (splice (i * s.page_size) input s.cached)
          else P.view.page s.inner j)
        ≡ update ((cached_view P).page s) i input j
  update_cached s i input v t e j =
      rw (slice-splice s.page_size input e i j s.cached (in_cache P s i v t))
        (elim (Bool-cases (i == j)) [
          | inl u ↦
              let yes' : ltb j s.cached_pages ≡ true = ground (arith, t, u) in rw u (rw yes' refl)
          | inr u ↦ rw u refl
        ])

  -- A page beyond those in memory is none of them.
  update_above :
      (s : FrontCachedPageStore (operations P)) (i : ℕ) (input : Page)
      → ltb i s.cached_pages ≡ false
      → (j : ℕ) → j < s.cached_pages
      → update (P.view.page s.inner) i input j ≡ P.view.page s.inner j
  update_above s i input t j below =
      let no : (i == j) ≡ false = ground (arith, t, below) in rw no refl

  -- After a write to memory the page is marked dirty, and the pages that are not are as before.
  clean_after :
      (s : FrontCachedPageStore (operations P)) (i : ℕ) (input : Page)
      → IsCached P s
      → ltb i s.cached_pages ≡ true
      → length input ≡ s.page_size
      → (j : ℕ) → j < s.cached_pages
      → get_or (splice i (true ∷ []) s.dirty) j true ≡ false
      → P.view.page s.inner j
        ≡ slice (j * s.page_size) s.page_size (splice (i * s.page_size) input s.cached)
  clean_after s i input v t e j below off =
      rw (slice-splice s.page_size input e i j s.cached (in_cache P s i v t))
        (elim (Bool-cases (i == j)) [
          | inl u ↦ absurd (ground (arith, off, u, flag_after P s i true v t j))
          | inr u ↦ rw u (v.clean j below (ground (arith, off, u, flag_after P s i true v t j)))
        ])

  write_cached-Served :
      (i : ℕ) (input : Page) (s : FrontCachedPageStore (operations P))
      → IsCached P s
      → ltb i s.cached_pages ≡ true
      → length input ≡ s.page_size
      → Served
          (cached_view P)
          s
          (write_cached (operations P) i input s)
          tt
          (update ((cached_view P).page s) i input)
  unfolding write_cached
  write_cached-Served i input s v t e = record {
    after = record s {
      cached = splice (i * s.page_size) input s.cached;
      dirty = splice i (true ∷ []) s.dirty;
    };
    result_is =
        rw (cached_page_ok P s i (in_cache P s i v t))
          (rw (set_dirty_ok P s i true v.flags t) refl);
    valid = record {
      valid = v.valid;
      size_is = v.size_is;
      whole =
          length-splice (i * s.page_size) input s.cached (omega (arith, in_cache P s i v t, e))
          ∙ v.whole;
      flags = flags_kept P s i (true ∷ []) v (ground (arith, t));
      clean = clean_after s i input v t e;
    };
    pages_are = fun_ext (update_cached s i input v t e);
    size_kept = refl;
    count_kept = refl;
  }

  -- In a valid state of the store that keeps its first pages in memory, over any page store,
  -- writing a page of the page size to an index in range succeeds and changes that page alone of
  -- those that reads give, whether it is in memory or not. The state stays valid: a page in memory
  -- that is not the one of the inner store is marked dirty.
  pub write_page-Served :
      (i : ℕ) (input : Page) (s : FrontCachedPageStore (operations P))
      → IsCached P s
      → i < P.view.page_count s.inner
      → length input ≡ s.page_size
      → Served
          (cached_view P)
          s
          (write_page (operations P) i input s)
          tt
          (update ((cached_view P).page s) i input)
  unfolding write_page
  write_page-Served i input s v lt e =
      rw (check_page_ok (P.view.page_count s.inner) s.page_size i (length input) lt e)
        (elim (Bool-cases (ltb i s.cached_pages)) [
          | inl t ↦ rw t (write_cached-Served i input s v t e)
          | inr t ↦ rw t (
              Served-as (cached_view P) s refl
                (fun_ext (update_missed s i input (P.view.page s.inner) t))
                (inner-Served s (P.write_page i input) v (update_above s i input t)
                  (P.write_page_served i input s.inner v.valid lt (e ∙ v.size_is))))
        ])

  -- The cached store is a page store again.
  abbrev pub cached_store : PageStore
  cached_store = record {
    State = FrontCachedPageStore (operations P);
    view = cached_view P;
    read_page = read_page (operations P);
    write_page = write_page (operations P);
    read_page_served = read_page-Served;
    write_page_served = write_page-Served;
  }
