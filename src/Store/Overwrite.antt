-- ===== src/Store/Overwrite.antt =====
-- src/store.rs: pages written back along a path.
use oram.Base.{
  ℕ, ◌≡◌, refl, ap, ◌∙◌, fun_ext, List, [], ◌∷◌, map, update, ◌==◌, ==→eq, Bool-cases, inl, inr,
}
use oram.Store.{overwrite}

pub update-same : {A : Type 0} (f : ℕ → A) (i : ℕ) → update f i (f i) ≡ f
update-same f i =
    fun_ext (λ j. elim (Bool-cases (i == j)) [ inl e ↦ rw e (ap f (==→eq i j e)) | inr e ↦ rw e ])

pub overwrite-same : {A : Type 0} (f : ℕ → A) (path : List ℕ) → overwrite f path (map f path) ≡ f
overwrite-same f [] = refl
overwrite-same f (i ∷ path) =
    ap (λ g. overwrite g path (map f path)) (update-same f i) ∙ overwrite-same f path

-- The pages of a tree that is overwritten are overwritten by the pages.
pub overwrite-map :
    {A B : Type 0} (k : A → B) (f : ℕ → A) (path : List ℕ) (xs : List A)
    → overwrite (λ i. k (f i)) path (map k xs) ≡ (λ i. k (overwrite f path xs i))
overwrite-map k f [] xs = refl
overwrite-map k f (i ∷ path) [] = refl
overwrite-map k f (i ∷ path) (x ∷ xs) =
    ap (λ g. overwrite g path (map k xs))
      (fun_ext (λ j. elim (Bool-cases (i == j)) [ inl e ↦ rw e | inr e ↦ rw e ]))
    ∙ overwrite-map k (update f i x) path xs
