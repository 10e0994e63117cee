-- ===== src/Store/Cached/Written.antt =====
-- src/store.rs, `FrontCachedPageStore`: what `flush` leaves.
use oram.Base.{ℕ, ◌*◌, ◌≤◌, ◌<◌, ◌≡◌, refl, sym, ap, ap₂, ◌∙◌, ltb, Bool-cases, inl, inr, arith}
use oram.Base.Bytes.{slice}
use oram.Outcome.{Result, ok}
use oram.Outcome.Stateful.{M}
use oram.Store.{Served, PageStore}
use oram.Store.Operations.{operations}
use oram.Store.Cached.Flush.{Flushed, flush_pages_lem}
use oram.Store.Cached.{FrontCachedPageStore, on_inner, flush}
use oram.Store.Cached.Valid.{IsCached, cached_view}

module _ (P : PageStore) where
  -- What a flush leaves: every page of the inner store is the one that reads gave, and still give.
  pub record FlushDone (s : FrontCachedPageStore (operations P))
      (r : Result (Unit {0}) × FrontCachedPageStore (operations P)) : Type 0 where
    pub after : FrontCachedPageStore (operations P)
    pub result_is : r ≡ (ok tt, after)
    pub valid : IsCached P after
    pub written : (j : ℕ) → P.view.page after.inner j ≡ (cached_view P).page s j
    pub kept : (j : ℕ) → (cached_view P).page after j ≡ (cached_view P).page s j

  written_all :
      (s t : FrontCachedPageStore (operations P))
      → Flushed P s s.cached_pages t
      → (j : ℕ) → P.view.page t.inner j ≡ (cached_view P).page s j
  written_all s t f j = elim (Bool-cases (ltb j s.cached_pages)) [
    | inl u ↦
        let below : j < s.cached_pages = ground (arith, u) in
        rw u (
          f.valid.clean j (omega (arith, below, f.many_is)) (f.flags j below)
          ∙ ap₂ (λ n xs. slice (j * n) n xs) f.size_is f.cached_is)
    | inr u ↦ rw u (f.rest_is j (ground (arith, u)))
  ]

  kept_all :
      (s t : FrontCachedPageStore (operations P)) (x : P.State)
      → Flushed P s s.cached_pages t
      → ((j : ℕ) → P.view.page x j ≡ (cached_view P).page s j)
      → (j : ℕ) → (cached_view P).page (record t { inner = x }) j ≡ (cached_view P).page s j
  kept_all s t x f inner_is j =
      let same : ltb j t.cached_pages ≡ ltb j s.cached_pages = ap (ltb j) f.many_is in
      elim (Bool-cases (ltb j s.cached_pages)) [
        | inl u ↦ rw (same ∙ u) (rw u (ap₂ (λ n xs. slice (j * n) n xs) f.size_is f.cached_is))
        | inr u ↦ rw (same ∙ u) (inner_is j)
      ]

  -- In a valid state of the store that keeps its first pages in memory, where a page there that is
  -- not marked dirty is that of the inner store, and with no more pages there than the store has,
  -- `flush` succeeds when that of the inner store does and changes no page: then every page of the
  -- inner store is the one that reads gave, reads give the same as before, and the state is valid
  -- again.
  pub flush_lem :
      (inner_flush : M P.State (Unit {0}))
      → ((t : P.State) → P.view.IsValid t → Served P.view t (inner_flush t) tt (P.view.page t))
      → (s : FrontCachedPageStore (operations P)) → IsCached P s
      → s.cached_pages ≤ P.view.page_count s.inner
      → FlushDone s (flush (operations P) inner_flush s)
  unfolding flush on_inner
  flush_lem inner_flush inner_flushes s v fit =
      let start : Flushed P s 0 s = record {
        valid = v;
        flags = λ j none. absurd (omega (arith, none));
        cached_is = refl;
        many_is = refl;
        size_is = refl;
        count_is = refl;
        rest_is = λ j above. refl;
      } in
      let loop = flush_pages_lem P s.cached_pages 0 s s start (omega arith) fit in
      let f = loop.flushed in
      let one = inner_flushes loop.after.inner f.valid.valid in
      let inner_is : (j : ℕ) → P.view.page one.after j ≡ (cached_view P).page s j =
        λ j. ap (λ g. g j) one.pages_are ∙ written_all s loop.after f j in
      record {
        after = record loop.after { inner = one.after };
        result_is = rw loop.result_is (rw one.result_is refl);
        valid = record {
          valid = one.valid;
          size_is = f.valid.size_is ∙ sym one.size_kept;
          whole = f.valid.whole;
          flags = f.valid.flags;
          clean = λ j below off. ap (λ g. g j) one.pages_are ∙ f.valid.clean j below off;
        };
        written = inner_is;
        kept = kept_all s loop.after one.after f inner_is;
      }
