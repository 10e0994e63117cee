-- ===== src/Overlay/Laws.antt =====
-- src/circuit.rs: an overlay of pages that were read holds them, and gives them back.
use oram.Base.{
  ℕ, ◌≡◌, refl, sym, ap, ◌∙◌, true, List, [], ◌∷◌, Option, none, some, map, length, length-map, All,
  update, ◌==◌, ==→eq, eq→==, arith, Bool-cases, inl, inr,
}
use oram.Outcome.{Result, ok}
use oram.Store.{Page}
use oram.Overlay.{
  Overlay, same_page, insert_new, overlay_pages, overlay_paths, overlay_path_pages, collect_path,
  collect_overlay_paths,
}

-- Each page of the overlay is that of `f`.
abbrev pub IsWithin : (ℕ → Page) → Overlay → Type 0
IsWithin f o = (i : ℕ) (page : Page) → o i ≡ some page → page ≡ f i

-- The pages of `path` are in the overlay.
abbrev pub Covers : (ℕ → Page) → List ℕ → Overlay → Type 0
Covers f path o = All (λ i. o i ≡ some (f i)) path

-- The pages that the overlay has are in the later one.
abbrev pub Extends : (ℕ → Page) → Overlay → Overlay → Type 0
Extends f o o' = (i : ℕ) → o i ≡ some (f i) → o' i ≡ some (f i)

same_page_self : (page : Page) → same_page page page ≡ true
unfolding same_page
same_page_self [] = refl
same_page_self (x ∷ xs) = ground (arith, same_page_self xs, eq→== x x refl)

-- What an insertion of pages of `f` gives.
pub record Overlaid (f : ℕ → Page) (o : Overlay) (path : List ℕ) (r : Result Overlay) : Type 0 where
  pub overlay : Overlay
  pub result_is : r ≡ ok overlay
  pub within : IsWithin f overlay
  pub covers : Covers f path overlay
  pub extends : Extends f o overlay

module _ (f : ℕ → Page) where
  update-IsWithin : (o : Overlay) (i : ℕ) → IsWithin f o → IsWithin f (update o i (some (f i)))
  update-IsWithin o i v j page h = elim (Bool-cases (i == j)) [
    | inl e ↦
        let h' : some (f i) ≡ some page = sym (rw e refl) ∙ h in
        ground (arith, ==→eq i j e, ap f (==→eq i j e))
    | inr e ↦ let h' : o j ≡ some page = sym (rw e refl) ∙ h in v j page h'
  ]

  update-Extends : (o : Overlay) (i : ℕ) → Extends f o (update o i (some (f i)))
  update-Extends o i j h = elim (Bool-cases (i == j)) [
    | inl e ↦ rw e (ap (λ k. some (f k)) (==→eq i j e))
    | inr e ↦ rw e h
  ]

  insert_new-Overlaid :
      (o : Overlay) (i : ℕ) (found : Option Page)
      → IsWithin f o
      → o i ≡ found
      → Overlaid f o (i ∷ []) (insert_new o i (f i) found)
  unfolding insert_new
  insert_new-Overlaid o i none v e = record {
    overlay = update o i (some (f i));
    result_is = refl;
    within = update-IsWithin o i v;
    covers = (rw (eq→== i i refl) refl, tt);
    extends = update-Extends o i;
  }
  insert_new-Overlaid o i (some page) v e =
      let same : page ≡ f i = v i page e in
      record {
        overlay = o;
        result_is = rw same (rw (same_page_self (f i)) refl);
        within = v;
        covers = (e ∙ ap some same, tt);
        extends = λ j h. h;
      }

  Covers-Extends :
      (path : List ℕ) (o o' : Overlay) → Extends f o o' → Covers f path o → Covers f path o'
  Covers-Extends [] o o' x c = tt
  Covers-Extends (i ∷ path) o o' x c = (x i c.0, Covers-Extends path o o' x c.1)

  overlay_pages-Overlaid :
      (size : ℕ) (path : List ℕ) (o : Overlay)
      → IsWithin f o
      → All (λ i. length (f i) ≡ size) path
      → Overlaid f o path (overlay_pages size path (map f path) o)
  unfolding overlay_pages
  overlay_pages-Overlaid size [] o v z = record {
    overlay = o;
    result_is = refl;
    within = v;
    covers = tt;
    extends = λ j h. h;
  }
  overlay_pages-Overlaid size (i ∷ path) o v z =
      let one = insert_new-Overlaid o i (o i) v refl in
      let rest = overlay_pages-Overlaid size path one.overlay one.within z.1 in
      record {
        overlay = rest.overlay;
        result_is = rw (eq→== (length (f i)) size z.0) (rw (one.result_is) (rest.result_is));
        within = rest.within;
        covers = (rest.extends i one.covers.0, rest.covers);
        extends = λ j h. rest.extends j (one.extends j h);
      }

  -- The same over several paths.
  pub record AllOverlaid (o : Overlay) (paths : List (List ℕ)) (r : Result Overlay) : Type 0 where
    pub overlay : Overlay
    pub result_is : r ≡ ok overlay
    pub within : IsWithin f overlay
    pub covers : All (λ path. Covers f path overlay) paths
    pub extends : Extends f o overlay

  overlay_paths-AllOverlaid :
      (size : ℕ) (paths : List (List ℕ)) (o : Overlay)
      → IsWithin f o
      → All (All (λ i. length (f i) ≡ size)) paths
      → AllOverlaid o paths (overlay_paths size paths (map (map f) paths) o)
  unfolding overlay_paths
  overlay_paths-AllOverlaid size [] o v z = record {
    overlay = o;
    result_is = refl;
    within = v;
    covers = tt;
    extends = λ j h. h;
  }
  overlay_paths-AllOverlaid size (path ∷ paths) o v z =
      let one = overlay_pages-Overlaid size path o v z.0 in
      let rest = overlay_paths-AllOverlaid size paths one.overlay one.within z.1 in
      record {
        overlay = rest.overlay;
        result_is =
            rw (eq→== (length path) (length (map f path)) (sym (length-map path f)))
              (rw (one.result_is) (rest.result_is));
        within = rest.within;
        covers =
            (Covers-Extends path one.overlay rest.overlay rest.extends one.covers, rest.covers);
        extends = λ j h. rest.extends j (one.extends j h);
      }

  collect_path-Covers :
      (path : List ℕ) (o : Overlay) → Covers f path o → collect_path path o ≡ ok (map f path)
  unfolding collect_path
  collect_path-Covers [] o c = refl
  collect_path-Covers (i ∷ path) o c = rw (c.0) (rw (collect_path-Covers path o c.1) refl)

  pub collect_overlay_paths-Covers :
      (paths : List (List ℕ)) (o : Overlay)
      → All (λ path. Covers f path o) paths
      → collect_overlay_paths paths o ≡ ok (map (map f) paths)
  unfolding collect_overlay_paths
  collect_overlay_paths-Covers [] o c = refl
  collect_overlay_paths-Covers (path ∷ paths) o c =
      rw (collect_path-Covers path o c.0) (rw (collect_overlay_paths-Covers paths o c.1) refl)

  -- The pages of paths, each of the page size and all of one function of the index, make an
  -- overlay: it succeeds, holds the page of every node of the paths, and no page but of that
  -- function.
  pub overlay_path_pages_lem :
      (size : ℕ) (paths : List (List ℕ))
      → All (All (λ i. length (f i) ≡ size)) paths
      → AllOverlaid (λ i. none) paths (overlay_path_pages paths (map (map f) paths) size)
  unfolding overlay_path_pages
  overlay_path_pages_lem size paths z =
      rw (eq→== (length paths) (length (map (map f) paths)) (sym (length-map paths (map f))))
        (overlay_paths-AllOverlaid size paths (λ i. none) (λ i page h. absurd (ground arith)) z)

  -- When the pages of paths, each of the page size, are those of one function of the index, and
  -- they are put in an overlay, the overlay gives the pages of the paths back.
  pub collect_overlay_paths-overlay_path_pages :
      (size : ℕ) (paths : List (List ℕ)) {o : Overlay}
      → All (All (λ i. length (f i) ≡ size)) paths
      → overlay_path_pages paths (map (map f) paths) size ≡ ok o
      → collect_overlay_paths paths o ≡ ok (map (map f) paths)
  collect_overlay_paths-overlay_path_pages size paths {o} z h =
      let done = overlay_path_pages_lem size paths z in
      let same : ok o ≡ ok done.overlay = sym h ∙ done.result_is in
      let equal : o ≡ done.overlay = ground arith in
      rw equal (collect_overlay_paths-Covers paths done.overlay done.covers)
