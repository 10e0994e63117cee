-- ===== src/Store/Cached.antt =====
-- src/store.rs, `FrontCachedPageStore`: the first pages of a store in memory, written back on `flush`.
pub mod Valid
pub mod Laws
pub mod Flush
pub mod Written
use oram.Base.{
  ℕ, zero, suc, ◌+◌, ◌*◌, Bool, true, false, not, List, [], ◌∷◌, length, replicate, ltb, leb,
  if◌then◌else◌,
}
use oram.Base.Bytes.{slice, splice}
use oram.Outcome.{Result, ok, err, invalid_input, panicked, index}
use oram.Outcome.Stateful.{M, pure, lift, get, put, ◌>>=◌, ◌>>◌}
use oram.Store.{Page}
use oram.Store.Mem.{check_page}
use oram.Store.Operations.{PageOperations}

pub record FrontCachedPageStore (S : PageOperations) : Type 0 where
  pub inner : S.State
  pub cached_pages : ℕ
  pub page_size : ℕ
  pub cached : List ℕ
  pub dirty : List Bool

-- `dirty[page_idx] = value`
unfoldable pub set_dirty : List Bool → ℕ → Bool → Result (List Bool)
set_dirty dirty page_idx value =
    if leb (length dirty) page_idx then err panicked else ok (splice page_idx (value ∷ []) dirty)

module _ (S : PageOperations) where
  -- `&cached[cached_range(page_idx)]`
  unfoldable pub cached_page : FrontCachedPageStore S → ℕ → Result Page
  cached_page s page_idx =
      if ltb (length s.cached) (page_idx * s.page_size + s.page_size)
      then err panicked
      else ok (slice (page_idx * s.page_size) s.page_size s.cached)

  unfoldable pub on_inner : {A : Type 0} → M S.State A → M (FrontCachedPageStore S) A
  on_inner m s = let (r, t) = m s.inner in (r, record s { inner = t })

  -- The loop of `new`: `n` pages, from `page_idx` on.
  pub load : ℕ → ℕ → ℕ → List ℕ → M S.State (List ℕ)
  load page_size zero page_idx cached = pure cached
  load page_size (suc n) page_idx cached =
      S.read_page page_idx (slice (page_idx * page_size) page_size cached) >>= λ page.
      load page_size n (suc page_idx) (splice (page_idx * page_size) page cached)

  pub new : ℕ → M S.State (FrontCachedPageStore S)
  unfolding load
  new cached_pages = get >>= λ t.
      if ltb (S.page_count t) cached_pages
      then lift (err invalid_input)
      else (load (S.page_size t) cached_pages 0 (replicate (cached_pages * S.page_size t) 0)
          >>= λ cached. get >>= λ t'. pure (record {
            inner = t';
            cached_pages = cached_pages;
            page_size = S.page_size t;
            cached = cached;
            dirty = replicate cached_pages false;
          }))

  unfoldable pub new_zeroed : S.State → ℕ → Result (FrontCachedPageStore S)
  new_zeroed inner cached_pages =
      if ltb (S.page_count inner) cached_pages
      then err invalid_input
      else ok (record {
        inner = inner;
        cached_pages = cached_pages;
        page_size = S.page_size inner;
        cached = replicate (cached_pages * S.page_size inner) 0;
        dirty = replicate cached_pages false;
      })

  unfoldable pub read_page : ℕ → Page → M (FrontCachedPageStore S) Page
  unfolding on_inner cached_page
  read_page page_idx out = get >>= λ s.
      lift (check_page (S.page_count s.inner) s.page_size page_idx (length out))
      >> (if ltb page_idx s.cached_pages
          then lift (cached_page s page_idx)
          else on_inner (S.read_page page_idx out))

  -- The branch of `write_page` for a page in memory.
  unfoldable pub write_cached : ℕ → Page → M (FrontCachedPageStore S) (Unit {0})
  unfolding set_dirty cached_page
  write_cached page_idx input = get >>= λ s. lift (cached_page s page_idx) >>= λ _.
      lift (set_dirty s.dirty page_idx true) >>= λ dirty.
      put (record s { cached = splice (page_idx * s.page_size) input s.cached; dirty = dirty })

  unfoldable pub write_page : ℕ → Page → M (FrontCachedPageStore S) (Unit {0})
  unfolding on_inner write_cached
  write_page page_idx input = get >>= λ s.
      lift (check_page (S.page_count s.inner) s.page_size page_idx (length input))
      >> (if ltb page_idx s.cached_pages
          then write_cached page_idx input
          else on_inner (S.write_page page_idx input))

  -- One round of the loop of `flush` whose page is dirty.
  unfoldable pub flush_page : ℕ → M (FrontCachedPageStore S) (Unit {0})
  unfolding on_inner cached_page set_dirty
  flush_page page_idx = get >>= λ s. lift (cached_page s page_idx) >>= λ page.
      on_inner (S.write_page page_idx page) >> get >>= λ s'.
      lift (set_dirty s'.dirty page_idx false) >>= λ dirty. put (record s' { dirty = dirty })

  -- The loop of `flush`: `n` pages, from `page_idx` on.
  unfoldable pub flush_pages : ℕ → ℕ → M (FrontCachedPageStore S) (Unit {0})
  unfolding flush_page
  flush_pages zero page_idx = pure tt
  flush_pages (suc n) page_idx = get >>= λ s. lift (index s.dirty page_idx) >>= λ is_dirty.
      (if is_dirty then flush_page page_idx else pure tt) >> flush_pages n (suc page_idx)

  -- `inner_flush` is `flush` of the inner store.
  unfoldable pub flush : M S.State (Unit {0}) → M (FrontCachedPageStore S) (Unit {0})
  unfolding on_inner flush_pages
  flush inner_flush = get >>= λ s. flush_pages s.cached_pages 0 >> on_inner inner_flush
