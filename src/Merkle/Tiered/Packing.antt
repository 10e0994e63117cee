-- ===== src/Merkle/Tiered/Packing.antt =====
-- src/merkle.rs, `TieredMerklePageStore`: the hashes by node number, of the trusted nodes and of those
-- that are packed into pages, and what a write to one place changes.
use native.Mathlib.Nat.{div-add-mod, mod-eq_of_lt}
use oram.Base.{
  ℕ, suc, ◌+◌, ◌-◌, ◌*◌, ◌/◌, ◌%◌, ◌^◌, ◌≤◌, ◌<◌, ◌≡◌, refl, ap, ◌∙◌, fun_ext, List, length, set,
  update, Bool-cases, inl, inr, ltb, lt→ltb, ltb→le, ltb→lt, ◌==◌, ==→eq, ==→ne, eq→==, ne→==,
  if◌then◌else◌, arith, false,
}
use oram.Base.Bytes.{slice, splice}
use oram.Outcome.{ok}
use oram.Store.{Page}
use oram.Store.Mem.Slices.{slice-splice}
use oram.Merkle.{Hash, slice_at, splice_at, check_node_idx, disk_hash_position}
use oram.Merkle.Tree.Refine.{hash_fn, hash_fn-set}

pub check_node_ok :
    (leaf_base n : ℕ)
    → leaf_base * 2 < 2 ^ 64
    → 0 < n
    → n < leaf_base * 2
    → check_node_idx leaf_base n ≡ ok tt
unfolding check_node_idx
check_node_ok leaf_base n fits pos lt =
    let small : leaf_base * 2 % 2 ^ 64 ≡ leaf_base * 2 = mod-eq_of_lt fits in ground (arith, small)

pub position_ok :
    (limit nodes per_page n : ℕ)
    → limit ≤ n
    → n - limit < nodes
    → disk_hash_position limit nodes per_page n
      ≡ ok ((n - limit) / per_page, (n - limit) % per_page * 32)
unfolding disk_hash_position
position_ok limit nodes per_page n le lt = ground arith

pub div-lt : (k p c : ℕ) → k < c * p → k / p < c
div-lt k p c h = grind arith

-- Two offsets with one page and one place in it are the same.
pub same_offset : (k l p : ℕ) → k / p ≡ l / p → k % p ≡ l % p → k ≡ l
same_offset k l p e f = omega (arith, div-add-mod k p, div-add-mod l p, ap (λ q. p * q) e, f)

pub slice_at_ok :
    (xs : List ℕ) (start len : ℕ)
    → start + len ≤ length xs
    → slice_at xs start len ≡ ok (slice start len xs)
slice_at_ok xs start len h = ground arith

pub splice_at_ok :
    (xs : List ℕ) (start : ℕ) (part : List ℕ)
    → start + length part ≤ length xs
    → splice_at xs start part ≡ ok (splice start part xs)
splice_at_ok xs start part h = ground arith

pub le→ltb : (n k : ℕ) → k ≤ n → ltb n k ≡ false
le→ltb n k h = ground arith

-- The hash of every node, from the trusted ones and the pages of the others.
unfoldable pub hash_of : ℕ → ℕ → List Hash → (ℕ → Page) → ℕ → Hash
hash_of limit per_page trusted pages n =
    if ltb n limit
    then hash_fn trusted n
    else slice ((n - limit) % per_page * 32) 32 (pages ((n - limit) / per_page))

pub hash_of_trusted :
    (limit per_page : ℕ) (trusted : List Hash) (pages : ℕ → Page) (n : ℕ)
    → n < limit
    → hash_of limit per_page trusted pages n ≡ hash_fn trusted n
unfolding hash_of
hash_of_trusted limit per_page trusted pages n lt = rw (lt→ltb n limit lt) refl

pub hash_of_packed :
    (limit per_page : ℕ) (trusted : List Hash) (pages : ℕ → Page) (n : ℕ)
    → limit ≤ n
    → hash_of limit per_page trusted pages n
      ≡ slice ((n - limit) % per_page * 32) 32 (pages ((n - limit) / per_page))
unfolding hash_of
hash_of_packed limit per_page trusted pages n le = rw (le→ltb n limit le) refl

-- A new hash among the trusted ones.
pub hash_of-set :
    (limit per_page : ℕ) (trusted : List Hash) (pages : ℕ → Page) (n : ℕ) (x : Hash)
    → length trusted ≡ limit
    → n < limit
    → hash_of limit per_page (set trusted n x) pages
      ≡ update (hash_of limit per_page trusted pages) n x
unfolding hash_of
hash_of-set limit per_page trusted pages n x e lt = fun_ext λ m. elim (Bool-cases (ltb m limit)) [
  | inl t ↦ rw t (ap (λ f. f m) (hash_fn-set trusted n x (omega (arith, e))))
  | inr t ↦ rw (t, ne→== n m (omega (arith, ltb→le m limit t))) refl
]

-- On the page of `n`, the place of `n` tells it apart.
pub same_place :
    (limit per_page : ℕ) (pages : ℕ → Page) (n m : ℕ) (x : Hash)
    → limit ≤ n
    → limit ≤ m
    → (n - limit) / per_page ≡ (m - limit) / per_page
    → (if (n - limit) % per_page == (m - limit) % per_page
        then x
        else slice ((m - limit) % per_page * 32) 32 (pages ((n - limit) / per_page)))
      ≡ (if n == m
          then x
          else slice ((m - limit) % per_page * 32) 32 (pages ((m - limit) / per_page)))
same_place limit per_page pages n m x le le' e =
    elim (Bool-cases ((n - limit) % per_page == (m - limit) % per_page)) [
      | inl t ↦
          let same = same_offset (n - limit) (m - limit) per_page e (==→eq _ _ t) in
          rw (t, eq→== n m (omega (arith, same))) refl
      | inr t ↦
          rw (t, ne→== n m (λ d. ==→ne _ _ t (ap (λ k. (k - limit) % per_page) d)))
            (ap (λ i. slice ((m - limit) % per_page * 32) 32 (pages i)) e)
    ]

-- A new hash in its place on a page.
pub hash_of-splice :
    (limit per_page : ℕ) (trusted : List Hash) (pages : ℕ → Page) (n : ℕ) (x : Hash)
    → limit ≤ n
    → length x ≡ 32
    → suc ((n - limit) % per_page) * 32 ≤ length (pages ((n - limit) / per_page))
    → hash_of limit per_page trusted (
        update pages
          ((n - limit) / per_page)
          (splice ((n - limit) % per_page * 32) x (pages ((n - limit) / per_page))))
      ≡ update (hash_of limit per_page trusted pages) n x
unfolding hash_of
hash_of-splice limit per_page trusted pages n x le e fits = fun_ext λ m.
    elim (Bool-cases (ltb m limit)) [
      | inl t ↦ rw (t, ne→== n m (omega (arith, ltb→lt m limit t))) refl
      | inr t ↦ rw t (elim (Bool-cases ((n - limit) / per_page == (m - limit) / per_page)) [
        | inr u ↦ rw (u, ne→== n m (λ e. ==→ne _ _ u (ap (λ k. (k - limit) / per_page) e))) refl
        | inl u ↦ rw u (
            slice-splice 32 x e ((n - limit) % per_page) ((m - limit) % per_page)
              (pages ((n - limit) / per_page)) fits
            ∙ same_place limit per_page pages n m x le (ltb→le m limit t) (==→eq _ _ u))
      ])
    ]
