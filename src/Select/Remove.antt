-- ===== src/Select/Remove.antt =====
-- src/circuit.rs: the tree after a path has been scanned differs from the tree before in at most
-- one bucket.
use oram.Base.{
  ℕ, ◌<◌, ◌≡◌, refl, sym, ap, ap₂, ◌∙◌, Bool, true, false, ◌||◌, List, [], ◌∷◌, map, All, update,
  update-ne, ◌==◌, ==→eq, arith, Bool-cases, inl, inr,
}
use oram.Params.Geometry.{Above, Ascends}
use oram.Block.{OramBlock}
use oram.Select.Laws.{has_id, remove_first, find_first}
use oram.Select.Path.{path_has, remove_path, find_path}
use oram.Store.{overwrite}
use oram.Store.Overwrite.{update-same, overwrite-same}

unfoldable pub on_path : List ℕ → ℕ → Bool
on_path [] i = false
on_path (j ∷ path) i = i == j || on_path path i

pub on_path-All :
    (P : ℕ → Type 0) (path : List ℕ) (i : ℕ) → on_path path i ≡ true → All P path → P i
unfolding on_path
on_path-All P [] i h a = absurd (ground arith)
on_path-All P (j ∷ path) i h a = elim (Bool-cases (i == j)) [
  | inl e ↦ rw (==→eq i j e) a.0
  | inr e ↦ on_path-All P path i (ground arith) a.1
]

Above-le : (i j : ℕ) (path : List ℕ) → i < j → Above j path → Above i path
Above-le i j [] h a = tt
Above-le i j (k ∷ path) h a = (omega (arith, a.0), a.1)

Above-Ascends : (i : ℕ) (path : List ℕ) → Above i path → Ascends path
Above-Ascends i [] a = tt
Above-Ascends i (j ∷ path) a = a.1

map-update :
    {A : Type 0} (f : ℕ → A) (i : ℕ) (v : A) (path : List ℕ)
    → Above i path
    → map (update f i v) path ≡ map f path
map-update f i v [] h = refl
map-update f i v (j ∷ path) h =
    ap₂ ◌∷◌ (update-ne f i v j (omega (arith, h.0)))
      (map-update f i v path (Above-le i j path h.0 h.1))

overwrite-rest :
    {A : Type 0} (f : ℕ → A) (i : ℕ) (v : A) (path : List ℕ)
    → Above i path
    → overwrite (update f i v) path (map f path) ≡ update f i v
overwrite-rest f i v path h =
    ap (overwrite (update f i v) path) (sym (map-update f i v path h))
    ∙ overwrite-same (update f i v) path

-- A bucket of the path holds the block, and only it changes.
pub record Removed (n id : ℕ) (tree : ℕ → List OramBlock) (path : List ℕ) (d : OramBlock)
    : Type 0 where
  pub node : ℕ
  pub node_on_path : on_path path node ≡ true
  pub node_has : has_id id (tree node) ≡ true
  pub tree_is :
      overwrite tree path (remove_path n id (map tree path))
      ≡ update tree node (remove_first n id (tree node))
  pub found_is : find_path id d (map tree path) ≡ find_first id d (tree node)

module _ (n id : ℕ) (tree : ℕ → List OramBlock) where
  pub Removed-intro :
      (path : List ℕ) (d : OramBlock)
      → Ascends path
      → path_has id (map tree path) ≡ true
      → Removed n id tree path d
  unfolding path_has remove_path find_path on_path
  Removed-intro [] d a h = absurd (ground arith)
  Removed-intro (i ∷ path) d a h = elim (Bool-cases (has_id id (tree i))) [
    | inl e ↦ record {
      node = i;
      node_on_path = ground arith;
      node_has = e;
      tree_is = rw e (overwrite-rest tree i (remove_first n id (tree i)) path a);
      found_is = rw e;
    }
    | inr e ↦
        let rest : Removed n id tree path d =
          Removed-intro path d (Above-Ascends i path a) (ground arith) in
        record {
          node = rest.node;
          node_on_path = ground (arith, rest.node_on_path);
          node_has = rest.node_has;
          tree_is = rw e (
              ap (λ g. overwrite g path (remove_path n id (map tree path))) (update-same tree i)
              ∙ rest.tree_is);
          found_is = rw e (rest.found_is);
        }
  ]

  pub path_unchanged :
      (path : List ℕ)
      → path_has id (map tree path) ≡ false
      → overwrite tree path (remove_path n id (map tree path)) ≡ tree
  unfolding path_has remove_path
  path_unchanged [] h = refl
  path_unchanged (i ∷ path) h =
      let e : has_id id (tree i) ≡ false = ground arith in
      let h' : path_has id (map tree path) ≡ false = ground arith in
      rw e (
        ap (λ g. overwrite g path (remove_path n id (map tree path))) (update-same tree i)
        ∙ path_unchanged path h')

  pub find_path-none :
      (path : List ℕ) (d : OramBlock)
      → path_has id (map tree path) ≡ false
      → find_path id d (map tree path) ≡ d
  unfolding path_has find_path
  find_path-none [] d h = refl
  find_path-none (i ∷ path) d h = ground (arith, find_path-none path d)

  -- A path without the block has no bucket with it.
  pub path_has-none :
      (path : List ℕ) (i : ℕ)
      → path_has id (map tree path) ≡ false
      → on_path path i ≡ true
      → has_id id (tree i) ≡ false
  unfolding path_has on_path
  path_has-none [] i h o = absurd (ground arith)
  path_has-none (j ∷ path) i h o = elim (Bool-cases (i == j)) [
    | inl e ↦ ap (λ k. has_id id (tree k)) (==→eq i j e) ∙ ground arith
    | inr e ↦ path_has-none path i (ground arith) (ground arith)
  ]
