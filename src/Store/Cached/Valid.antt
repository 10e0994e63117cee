-- ===== src/Store/Cached/Valid.antt =====
-- src/store.rs, `FrontCachedPageStore`: its valid states, and what they hold.
use native.Mathlib.Nat.{mul-le-mul_right}
use oram.Base.{
  ℕ, zero, suc, ◌+◌, ◌*◌, ◌≤◌, ◌<◌, ◌≡◌, refl, Bool, true, false, List, ◌∷◌, [], ◌++◌, take, drop,
  length, get_or, length-append, length-take, length-drop, ltb, ◌==◌, if◌then◌else◌, arith,
}
use oram.Base.Bytes.{slice, splice}
use oram.Outcome.{ok}
use oram.Store.{View, PageStore}
use oram.Store.Operations.{operations}
use oram.Store.Cached.{FrontCachedPageStore, set_dirty, cached_page}

-- A flag after one of them was set.
get_or-splice :
    (i : ℕ) (v d : Bool) (xs : List Bool) (j : ℕ)
    → i < length xs
    → get_or (splice i (v ∷ []) xs) j d ≡ (if i == j then v else get_or xs j d)
get_or-splice i v d [] j h = absurd (omega (arith, h))
get_or-splice zero v d (x ∷ xs) zero h = refl
get_or-splice zero v d (x ∷ xs) (suc j) h =
    let no : (0 == suc j) ≡ false = ground arith in rw no refl
get_or-splice (suc i) v d (x ∷ xs) zero h =
    let no : (suc i == 0) ≡ false = ground arith in rw no refl
get_or-splice (suc i) v d (x ∷ xs) (suc j) h =
    let e : suc i + 1 ≡ suc (i + 1) = omega arith in
    let same : (suc i == suc j) ≡ (i == j) = ground arith in
    rw (e, same) (get_or-splice i v d xs j (omega (arith, h)))

module _ (P : PageStore) where
  -- A page in memory that is not dirty is that of the inner store.
  abbrev pub IsClean : FrontCachedPageStore (operations P) → Type 0
  IsClean s =
      (j : ℕ)
      → j < s.cached_pages
      → get_or s.dirty j true ≡ false
      → P.view.page s.inner j ≡ slice (j * s.page_size) s.page_size s.cached

  -- The pages in memory are whole, there are as many flags, and what is not marked dirty is in the
  -- inner store, which is valid.
  pub record IsCached (s : FrontCachedPageStore (operations P)) : Type 0 where
    pub valid : P.view.IsValid s.inner
    pub size_is : s.page_size ≡ P.view.page_size s.inner
    pub whole : length s.cached ≡ s.cached_pages * s.page_size
    pub flags : length s.dirty ≡ s.cached_pages
    pub clean : IsClean s

  abbrev pub cached_view : View (FrontCachedPageStore (operations P))
  cached_view = record {
    page_size = λ s. s.page_size;
    page_count = λ s. P.view.page_count s.inner;
    page = λ s i.
        if ltb i s.cached_pages
        then slice (i * s.page_size) s.page_size s.cached
        else P.view.page s.inner i;
    IsValid = IsCached;
  }

  pub in_cache :
      (s : FrontCachedPageStore (operations P)) (i : ℕ)
      → IsCached s
      → ltb i s.cached_pages ≡ true
      → suc i * s.page_size ≤ length s.cached
  in_cache s i v h =
      let lt : i < s.cached_pages = ground (arith, h) in
      omega (arith, mul-le-mul_right s.page_size lt, v.whole)

  pub cached_page_ok :
      (s : FrontCachedPageStore (operations P)) (i : ℕ)
      → suc i * s.page_size ≤ length s.cached
      → cached_page (operations P) s i ≡ ok (slice (i * s.page_size) s.page_size s.cached)
  unfolding cached_page
  cached_page_ok s i h =
      let no : ltb (length s.cached) (i * s.page_size + s.page_size) ≡ false = ground (arith, h) in
      rw no refl

  pub set_dirty_ok :
      (s : FrontCachedPageStore (operations P)) (i : ℕ) (value : Bool)
      → length s.dirty ≡ s.cached_pages
      → ltb i s.cached_pages ≡ true
      → set_dirty s.dirty i value ≡ ok (splice i (value ∷ []) s.dirty)
  unfolding set_dirty
  set_dirty_ok s i value flags h = ground (arith, flags, h)

  pub flags_kept :
      (s : FrontCachedPageStore (operations P)) (i : ℕ) (one : List Bool)
      → IsCached s
      → i + length one ≤ s.cached_pages
      → length (splice i one s.dirty) ≡ s.cached_pages
  flags_kept s i one v h = omega (
    arith,
    h,
    v.flags,
    length-append (take i s.dirty) (one ++ drop (i + length one) s.dirty),
    length-append one (drop (i + length one) s.dirty),
    length-take i s.dirty,
    length-drop (i + length one) s.dirty,
  )

  -- A flag after one of them was set.
  pub flag_after :
      (s : FrontCachedPageStore (operations P)) (i : ℕ) (value : Bool)
      → IsCached s
      → ltb i s.cached_pages ≡ true
      → (j : ℕ)
      → get_or (splice i (value ∷ []) s.dirty) j true
        ≡ (if i == j then value else get_or s.dirty j true)
  flag_after s i value v h j = get_or-splice i value true s.dirty j (ground (arith, h, v.flags))
