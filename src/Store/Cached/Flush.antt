-- ===== src/Store/Cached/Flush.antt =====
-- src/store.rs, `FrontCachedPageStore`: the pages in memory are written back.
use oram.Base.{
  ℕ, zero, suc, ◌+◌, ◌*◌, ◌≤◌, ◌<◌, ◌≡◌, refl, sym, ap, subst, ◌∙◌, Bool, true, false, ◌∷◌, [],
  drop, length, length-take, length-drop, get_or, ltb, ◌==◌, ==→eq, update, Bool-cases, inl, inr,
  if◌then◌else◌, arith,
}
use oram.Base.Bytes.{slice, splice}
use oram.Outcome.{Result, ok}
use oram.Outcome.Steps.{index_ok, index_some}
use oram.Store.{Served, PageStore}
use oram.Store.Operations.{operations}
use oram.Store.Cached.{FrontCachedPageStore, on_inner, flush_page, flush_pages}
use oram.Store.Cached.Valid.{
  IsCached, in_cache, cached_page_ok, set_dirty_ok, flags_kept, flag_after,
}

module _ (P : PageStore) where
  -- The first `n` pages were written back; reads give what they gave.
  pub record Flushed (s : FrontCachedPageStore (operations P)) (n : ℕ)
      (after : FrontCachedPageStore (operations P)) : Type 0 where
    pub valid : IsCached P after
    pub flags : (j : ℕ) → j < n → get_or after.dirty j true ≡ false
    pub cached_is : after.cached ≡ s.cached
    pub many_is : after.cached_pages ≡ s.cached_pages
    pub size_is : after.page_size ≡ s.page_size
    pub count_is : P.view.page_count after.inner ≡ P.view.page_count s.inner
    pub rest_is : (j : ℕ) → s.cached_pages ≤ j → P.view.page after.inner j ≡ P.view.page s.inner j

  pub record Stepped (s0 : FrontCachedPageStore (operations P)) (n : ℕ)
      (r : Result (Unit {0}) × FrontCachedPageStore (operations P)) : Type 0 where
    pub after : FrontCachedPageStore (operations P)
    pub result_is : r ≡ (ok tt, after)
    pub flushed : Flushed s0 n after

  length-slice :
      (s : FrontCachedPageStore (operations P)) (i : ℕ)
      → suc i * s.page_size ≤ length s.cached
      → length (slice (i * s.page_size) s.page_size s.cached) ≡ s.page_size
  length-slice s i h = omega (
    arith,
    h,
    length-take s.page_size (drop (i * s.page_size) s.cached),
    length-drop (i * s.page_size) s.cached,
  )

  old_flag : {b c : Bool} → b ≡ false → (if b then false else c) ≡ false → c ≡ false
  old_flag h k = ground (arith, h, k)

  new_flag :
      (s : FrontCachedPageStore (operations P)) (i j : ℕ)
      → ((j : ℕ) → j < i → get_or s.dirty j true ≡ false)
      → j < suc i
      → (if i == j then false else get_or s.dirty j true) ≡ false
  new_flag s i j before below = elim (Bool-cases (i == j)) [
    | inl u ↦ rw u refl
    | inr u ↦ rw u (before j (ground (arith, below, u)))
  ]

  same_page :
      (s : FrontCachedPageStore (operations P)) (i j : ℕ)
      → ((i == j) ≡ false → P.view.page s.inner j ≡ slice (j * s.page_size) s.page_size s.cached)
      → update (P.view.page s.inner) i (slice (i * s.page_size) s.page_size s.cached) j
        ≡ slice (j * s.page_size) s.page_size s.cached
  same_page s i j old = elim (Bool-cases (i == j)) [
    | inl u ↦ rw u (ap (λ k. slice (k * s.page_size) s.page_size s.cached) (==→eq i j u))
    | inr u ↦ rw u (old u)
  ]

  flush_page_lem :
      (s0 s : FrontCachedPageStore (operations P)) (i : ℕ)
      → Flushed s0 i s
      → ltb i s.cached_pages ≡ true
      → i < P.view.page_count s.inner
      → Stepped s0 (suc i) (flush_page (operations P) i s)
  unfolding flush_page on_inner
  flush_page_lem s0 s i f h lt =
      let room = in_cache P s i f.valid h in
      let page = slice (i * s.page_size) s.page_size s.cached in
      let one : Served P.view s.inner (P.write_page i page s.inner) tt
          (update (P.view.page s.inner) i page) =
        P.write_page_served i page s.inner f.valid.valid lt
          (length-slice s i room ∙ f.valid.size_is) in
      let t : FrontCachedPageStore (operations P) = record s { inner = one.after } in
      let lower : i < s.cached_pages = ground (arith, h) in
      let flag = flag_after P s i false f.valid h in
      record {
        after = record t { dirty = splice i (false ∷ []) s.dirty };
        result_is =
            rw (cached_page_ok P s i room)
              (rw one.result_is (rw (set_dirty_ok P t i false f.valid.flags h) refl));
        flushed = record {
          valid = record {
            valid = one.valid;
            size_is = f.valid.size_is ∙ sym one.size_kept;
            whole = f.valid.whole;
            flags = flags_kept P s i (false ∷ []) f.valid (omega (arith, lower));
            clean = λ j below off.
                ap (λ g. g j) one.pages_are
                ∙ same_page s i j (λ u. f.valid.clean j below (old_flag u (sym (flag j) ∙ off)));
          };
          flags = λ j below. flag j ∙ new_flag s i j f.flags below;
          cached_is = f.cached_is;
          many_is = f.many_is;
          size_is = f.size_is;
          count_is = one.count_kept ∙ f.count_is;
          rest_is = λ j above.
              let no : (i == j) ≡ false = ground (arith, lower, above, f.many_is) in
              ap (λ g. g j) one.pages_are ∙ rw no (f.rest_is j above);
        };
      }

  -- A page that is not dirty is passed over.
  pass :
      (s0 s : FrontCachedPageStore (operations P)) (i : ℕ)
      → Flushed s0 i s
      → get_or s.dirty i true ≡ false
      → Flushed s0 (suc i) s
  pass s0 s i f off = record {
    valid = f.valid;
    flags = λ j below. elim (Bool-cases (i == j)) [
      | inl u ↦ ap (λ k. get_or s.dirty k true) (sym (==→eq i j u)) ∙ off
      | inr u ↦ f.flags j (ground (arith, below, u))
    ];
    cached_is = f.cached_is;
    many_is = f.many_is;
    size_is = f.size_is;
    count_is = f.count_is;
    rest_is = f.rest_is;
  }

  pub flush_pages_lem :
      (n i : ℕ) (s0 s : FrontCachedPageStore (operations P))
      → Flushed s0 i s
      → i + n ≡ s0.cached_pages
      → s0.cached_pages ≤ P.view.page_count s0.inner
      → Stepped s0 s0.cached_pages (flush_pages (operations P) n i s)
  unfolding flush_pages
  flush_pages_lem zero i s0 s f e fit = record {
    after = s;
    result_is = refl;
    flushed =
        let same : i ≡ s0.cached_pages = omega (arith, e) in subst (λ k. Flushed s0 k s) same f;
  }
  flush_pages_lem (suc n) i s0 s f e fit =
      let (d, there) = index_ok s.dirty i (omega (arith, e, f.valid.flags, f.many_is)) in
      elim (Bool-cases d) [
        | inl t ↦
            let one =
              flush_page_lem s0 s i f (ground (arith, e, f.many_is))
                (omega (arith, e, fit, f.count_is)) in
            let rest = flush_pages_lem n (suc i) s0 one.after one.flushed (omega (arith, e)) fit in
            record {
              after = rest.after;
              result_is = rw there (rw t (rw one.result_is rest.result_is));
              flushed = rest.flushed;
            }
        | inr t ↦
            let off : get_or s.dirty i true ≡ false =
              sym ((index_some s.dirty i true there).1) ∙ t in
            let rest = flush_pages_lem n (suc i) s0 s (pass s0 s i f off) (omega (arith, e)) fit in
            record {
              after = rest.after;
              result_is = rw there (rw t rest.result_is);
              flushed = rest.flushed;
            }
      ]
