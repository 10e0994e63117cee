-- ===== src/Params/Geometry.antt =====
-- src/params.rs: which nodes a path passes.
use native.Mathlib.Nat.{
  mod-lt, mod-eq_of_lt, pow-suc, div-div-eq-div-mul, div-lt_iff_lt-mul, add-sub_of_le,
}
use oram.Base.{
  ℕ, zero, suc, ◌+◌, ◌-◌, ◌/◌, ◌%◌, ◌^◌, ◌≤◌, ◌<◌, ◌≡◌, refl, sym, ◌∙◌, ◌↔◌, ap, List, [], ◌∷◌, map,
  length, All, range_from, length-map, arith, Bool-cases, inl, inr, ltb, ltb→lt, ltb→le, ◌==◌,
  ==→eq,
}
use oram.Base.Bits.{bit_and-mask, two_pow-suc, two_pow-pos, two_pow_mono, two_pow-add, mod-two_mul}
use oram.Base.Shifts.{shl_in_word, shr_in_word}
use oram.Base.Words.{pow_trailing_zeros}
use oram.Outcome.{ok}
use oram.Params.{OramParams, leaf_bits, height, node_index, path_nodes, bucket_count, with_leaves}

-- A tree that the constructors accept.
pub record IsTree (p : OramParams) : Type 0 where
  pub leaves_pow : p.leaves ≡ 2 ^ leaf_bits p
  pub two_le_leaves : 2 ≤ p.leaves
  pub leaves_fit : p.leaves < 2 ^ 32

pub leaf_bits-lt : {p : OramParams} → IsTree p → leaf_bits p < 32
leaf_bits-lt {p} t = elim (Bool-cases (ltb (leaf_bits p) 32)) [
  | inl e ↦ ltb→lt _ _ e
  | inr e ↦
      absurd
        (omega (arith, t.leaves_pow, t.leaves_fit, two_pow_mono 32 (leaf_bits p) (ltb→le _ _ e)))
]

pub leaf_bits-pos : {p : OramParams} → IsTree p → 0 < leaf_bits p
leaf_bits-pos {p} t = elim (Bool-cases (leaf_bits p == 0)) [
  | inl e ↦
      absurd
        (omega (arith, t.two_le_leaves, t.leaves_pow, ap (λ k. 2 ^ k) (==→eq (leaf_bits p) 0 e)))
  | inr e ↦ ground (arith, e)
]

-- The node at `depth` over `leaf`, as arithmetic.
pub node_index_lem :
    {p : OramParams} (depth leaf : ℕ)
    → IsTree p
    → depth < height p
    → node_index p depth leaf ≡ 2 ^ depth - 1 + leaf / 2 ^ (leaf_bits p - depth) % 2 ^ depth
unfolding node_index height
node_index_lem {p} zero leaf t h = omega (arith, shl_in_word 0 (omega arith))
node_index_lem {p} (suc depth) leaf t h =
    let small = leaf_bits-lt t in
    rw (shl_in_word (suc depth) (omega (arith, h, small))) (
      rw (shr_in_word (leaf_bits p) (suc depth) leaf (omega (arith, h)) (omega (arith, small)))
        (ground (arith, bit_and-mask (suc depth) (leaf / 2 ^ (leaf_bits p - suc depth)))))

-- The nodes at `depth` are numbered from 2^depth - 1 on.
node_index_level :
    {p : OramParams} (depth leaf : ℕ)
    → IsTree p
    → depth < height p
    → (2 ^ depth - 1 ≤ node_index p depth leaf) × (node_index p depth leaf + 1 < 2 ^ suc depth)
node_index_level {p} depth leaf t h = omega (
  arith,
  node_index_lem depth leaf t h,
  two_pow-suc depth,
  two_pow-pos depth,
  mod-lt (leaf / 2 ^ (leaf_bits p - depth)) (two_pow-pos depth),
)

-- Every node of a path is a bucket of the tree.
pub node_index-lt :
    {p : OramParams} (depth leaf : ℕ)
    → IsTree p
    → depth < height p
    → node_index p depth leaf < bucket_count p
unfolding height bucket_count
node_index-lt {p} depth leaf t h = omega (
  arith,
  node_index_level depth leaf t h,
  two_pow_mono (suc depth) (suc (leaf_bits p)) (omega arith),
  two_pow-suc (leaf_bits p),
)

-- A path meets each level once: nodes at different depths differ.
pub node_index-depth :
    {p : OramParams} (d e leaf leaf' : ℕ)
    → IsTree p
    → d < e
    → e < height p
    → node_index p d leaf < node_index p e leaf'
node_index-depth d e leaf leaf' t h le = omega (
  arith,
  node_index_level d leaf t (omega (arith, h, le)),
  node_index_level e leaf' t le,
  two_pow_mono (suc d) e h,
  two_pow-pos d,
)

-- One level up, a leaf's prefix loses its last bit.
prefix_up : (b d leaf : ℕ) → d < b → leaf / 2 ^ (b - d) ≡ leaf / 2 ^ (b - suc d) / 2
prefix_up b d leaf h =
    ap (λ k. leaf / 2 ^ k) (omega arith)
    ∙ (ap (λ m. leaf / m) (pow-suc 2 (b - suc d))
        ∙ sym (div-div-eq-div-mul leaf (2 ^ (b - suc d)) 2))

-- In a valid tree, for a leaf in range and a depth above that of the leaves, a node on the path is
-- the parent, in heap order, of the next node of that path.
pub node_index-parent :
    {p : OramParams} (depth leaf : ℕ)
    → IsTree p
    → depth < leaf_bits p
    → leaf < p.leaves
    → (node_index p (suc depth) leaf - 1) / 2 ≡ node_index p depth leaf
unfolding height
node_index-parent {p} depth leaf t h in_range =
    let x : ℕ = leaf / 2 ^ (leaf_bits p - suc depth) in
    let up : leaf / 2 ^ (leaf_bits p - depth) ≡ x / 2 = prefix_up (leaf_bits p) depth leaf h in
    omega (
      arith,
      node_index_lem depth leaf t (omega (arith, h)),
      node_index_lem (suc depth) leaf t (omega (arith, h)),
      ap (λ y. y % 2 ^ depth) up,
      mod-two_mul x (2 ^ depth) (two_pow-pos depth),
      ap (λ m. x % m) (two_pow-suc depth),
      two_pow-suc depth,
      two_pow-pos depth,
    )

-- A prefix of a leaf's bits, of `depth` bits.
pub prefix-lt :
    {p : OramParams} (depth leaf : ℕ)
    → IsTree p
    → depth ≤ leaf_bits p
    → leaf < p.leaves
    → leaf / 2 ^ (leaf_bits p - depth) < 2 ^ depth
prefix-lt {p} depth leaf t h hl = (div-lt_iff_lt-mul (two_pow-pos (leaf_bits p - depth))).1 (
    omega (
      arith,
      t.leaves_pow,
      two_pow-add depth (leaf_bits p - depth),
      ap (λ k. 2 ^ k) (add-sub_of_le h),
    ))

-- In a valid tree, for a depth up to that of the leaves and two leaves in range, two paths share
-- their node at that depth exactly when the leaves agree in their first bits, as many as the
-- depth.
pub node_index-eq_iff :
    {p : OramParams} (depth leaf leaf' : ℕ)
    → IsTree p
    → depth ≤ leaf_bits p
    → leaf < p.leaves
    → leaf' < p.leaves
    → (node_index p depth leaf ≡ node_index p depth leaf')
      ↔ (leaf / 2 ^ (leaf_bits p - depth) ≡ leaf' / 2 ^ (leaf_bits p - depth))
unfolding height
node_index-eq_iff {p} depth leaf leaf' t h hl hl' =
    let within : depth < leaf_bits p + 1 = omega (arith, h) in
    let low : ℕ = 2 ^ (leaf_bits p - depth) in
    let e : leaf / low % 2 ^ depth ≡ leaf / low = mod-eq_of_lt (prefix-lt depth leaf t h hl) in
    let e' : leaf' / low % 2 ^ depth ≡ leaf' / low = mod-eq_of_lt (prefix-lt depth leaf' t h hl') in
    (
      λ same.
          omega (arith, node_index_lem depth leaf t within, node_index_lem depth leaf' t within),
      λ same.
          omega (arith, node_index_lem depth leaf t within, node_index_lem depth leaf' t within),
    )

-- A path has a node at each of its `height` depths.
abbrev path_from : OramParams → ℕ → ℕ → ℕ → List ℕ
path_from p leaf depth n = map (λ d. node_index p d leaf) (range_from depth n)

-- Its buckets lie in the tree.
path_from-lt :
    {p : OramParams} (leaf depth n : ℕ)
    → IsTree p
    → depth + n ≤ height p
    → All (λ i. i < bucket_count p) (path_from p leaf depth n)
path_from-lt leaf depth zero t h = tt
path_from-lt leaf depth (suc n) t h =
    (node_index-lt depth leaf t (omega arith), path_from-lt leaf (suc depth) n t (omega arith))

-- In a valid tree, every node on a path is below the bucket count.
pub path_nodes-lt :
    {p : OramParams} (leaf : ℕ) → IsTree p → All (λ i. i < bucket_count p) (path_nodes p leaf)
unfolding path_nodes
path_nodes-lt {p} leaf t = path_from-lt leaf 0 (height p) t (omega arith)

length-range_from : (start n : ℕ) → length (range_from start n) ≡ n
length-range_from start zero = refl
length-range_from start (suc n) = ap suc (length-range_from (suc start) n)

pub length-path_nodes : (p : OramParams) (leaf : ℕ) → length (path_nodes p leaf) ≡ height p
unfolding path_nodes
length-path_nodes p leaf = length-map (range_from 0 (height p)) _ ∙ length-range_from 0 (height p)

-- No node comes twice: the indices grow along the path.
abbrev pub Above : ℕ → List ℕ → Type 0
Above n [] = Unit {0}
Above n (i ∷ is) = (n < i) × Above i is

abbrev pub Ascends : List ℕ → Type 0
Ascends [] = Unit {0}
Ascends (i ∷ is) = Above i is

path_from-Above :
    {p : OramParams} (leaf depth d n : ℕ)
    → IsTree p
    → d < depth
    → depth + n ≤ height p
    → Above (node_index p d leaf) (path_from p leaf depth n)
path_from-Above leaf depth d zero t h within = tt
path_from-Above leaf depth d (suc n) t h within = (
  node_index-depth d depth leaf leaf t h (omega (arith, within)),
  path_from-Above leaf (suc depth) depth n t (omega arith) (omega (arith, within)),
)

path_from-Ascends :
    {p : OramParams} (leaf depth n : ℕ)
    → IsTree p
    → depth + n ≤ height p
    → Ascends (path_from p leaf depth n)
path_from-Ascends leaf depth zero t within = tt
path_from-Ascends leaf depth (suc n) t within =
    path_from-Above leaf (suc depth) depth n t (omega arith) (omega (arith, within))

pub path_nodes_ascend : {p : OramParams} (leaf : ℕ) → IsTree p → Ascends (path_nodes p leaf)
unfolding path_nodes
path_nodes_ascend {p} leaf t = path_from-Ascends leaf 0 (height p) t (omega arith)

-- In a valid tree, the node indices of the path of a leaf in range grow strictly from each node to
-- the next.
pub path_nodes-Ascends :
    {p : OramParams} (leaf : ℕ) → IsTree p → leaf < p.leaves → Ascends (path_nodes p leaf)
path_nodes-Ascends leaf t in_range = path_nodes_ascend leaf t

-- The parameters that `with_leaves` accepts have a power of two of leaves, at least 2 and below 2
-- ^ 32, as many as asked for, and positive logical blocks, block size and bucket size.
pub with_leaves-IsTree :
    (logical_blocks block_size leaves : ℕ) {p : OramParams}
    → with_leaves logical_blocks block_size leaves ≡ ok p
    → IsTree p
      × (p.leaves ≡ leaves)
      × (0 < p.logical_blocks)
      × (0 < p.block_size)
      × (0 < p.bucket_size)
unfolding with_leaves leaf_bits
with_leaves-IsTree n b l h = ground (arith, pow_trailing_zeros l)
