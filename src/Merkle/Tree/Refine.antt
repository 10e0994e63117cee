-- ===== src/Merkle/Tree/Refine.antt =====
-- src/merkle.rs, `MerklePageStore`: the loops on the vector of hashes do what `Merkle.Commit` says of
-- the hashes as a function.
use oram.Base.{
  ℕ, zero, suc, ◌+◌, ◌*◌, ◌/◌, ◌<◌, ◌≡◌, refl, ap, ◌∙◌, fun_ext, List, [], ◌∷◌, length, length-set,
  get_or, get_or-set, set, replicate, update, Bool-cases, inl, inr, ltb, lt→ltb, ltb→lt, arith,
}
use oram.Outcome.{Result, ok, index, ◌>>=◌}
use oram.Merkle.{Hash, Sha256, hash_node, set_at}
use oram.Merkle.Commit.{rehash_up, parent_hash}
use oram.Merkle.Tree.{rehash, update_up, update_leaf}

-- The vector as a function; past its end stands a hash of zeros.
abbrev pub hash_fn : List Hash → ℕ → Hash
hash_fn hashes n = get_or hashes n (replicate 32 0)

pub index_ok :
    (hashes : List Hash) (i : ℕ) → i < length hashes → index hashes i ≡ ok (hash_fn hashes i)
index_ok [] i h = absurd (omega arith)
index_ok (x ∷ xs) zero h = refl
index_ok (x ∷ xs) (suc i) h = index_ok xs i (omega arith)

pub set_at_ok :
    (hashes : List Hash) (i : ℕ) (x : Hash)
    → i < length hashes
    → set_at hashes i x ≡ ok (set hashes i x)
set_at_ok hashes i x h = rw (lt→ltb i (length hashes) h) refl

pub hash_fn-set :
    (hashes : List Hash) (i : ℕ) (x : Hash)
    → i < length hashes
    → hash_fn (set hashes i x) ≡ update (hash_fn hashes) i x
hash_fn-set hashes i x h = fun_ext λ j. get_or-set hashes i j x (replicate 32 0) h

-- The vector is filled in to `h`.
pub record Filled (size : ℕ) (r : Result (List Hash)) (h : ℕ → Hash) : Type 0 where
  pub hashes : List Hash
  pub result_is : r ≡ ok hashes
  pub reads : hash_fn hashes ≡ h
  pub sized : length hashes ≡ size

pub set_at_lem :
    {size : ℕ} (hashes : List Hash) (i : ℕ) (x : Hash)
    → length hashes ≡ size
    → i < size
    → Filled size (set_at hashes i x) (update (hash_fn hashes) i x)
set_at_lem hashes i x e lt = record {
  hashes = set hashes i x;
  result_is = set_at_ok hashes i x (omega (arith, e));
  reads = hash_fn-set hashes i x (omega (arith, e));
  sized = length-set hashes i x ∙ e;
}

pub Filled-then :
    {size size' : ℕ} {r : Result (List Hash)} {h h' : ℕ → Hash} (f : List Hash → Result (List Hash))
    → Filled size r h
    → ((hashes : List Hash)
        → hash_fn hashes ≡ h
        → length hashes ≡ size
        → Filled size' (f hashes) h')
    → Filled size' (r >>= f) h'
Filled-then f one k =
    let rest = k one.hashes one.reads one.sized in
    record {
      hashes = rest.hashes;
      result_is = ap (λ r. r >>= f) one.result_is ∙ rest.result_is;
      reads = rest.reads;
      sized = rest.sized;
    }

module _ (sha : Sha256) (leaf_base : ℕ) where
  pub rehash_lem :
      (n : ℕ) (hashes : List Hash)
      → length hashes ≡ leaf_base * 2
      → n < leaf_base
      → Filled (leaf_base * 2) (rehash sha n hashes) (
          update
            (hash_fn hashes)
            n
            (hash_node sha n (hash_fn hashes (n * 2)) (hash_fn hashes (n * 2 + 1))))
  unfolding rehash
  rehash_lem n hashes e lt = record {
    hashes = set hashes n (hash_node sha n (hash_fn hashes (n * 2)) (hash_fn hashes (n * 2 + 1)));
    result_is =
        rw
          (
            index_ok hashes (n * 2) (omega (arith, e)),
            index_ok hashes (n * 2 + 1) (omega (arith, e)),
          )
          (set_at_ok hashes n _ (omega (arith, e)));
    reads = hash_fn-set hashes n _ (omega (arith, e));
    sized = length-set hashes n _ ∙ e;
  }

  update_up_lem :
      (fuel n : ℕ) (hashes : List Hash)
      → n < fuel
      → length hashes ≡ leaf_base * 2
      → n < leaf_base * 2
      → Filled
          (leaf_base * 2)
          (update_up sha fuel n hashes)
          (rehash_up sha leaf_base fuel n (hash_fn hashes))
  unfolding update_up rehash_up parent_hash
  update_up_lem zero n hashes enough e lt = absurd (omega arith)
  update_up_lem (suc fuel) n hashes enough e lt = elim (Bool-cases (ltb 1 n)) [
    | inl t ↦ rw t (
        Filled-then (update_up sha fuel (n / 2)) (rehash_lem (n / 2) hashes e (omega arith))
          λ hashes' same e'.
            rw (← same)
              (update_up_lem fuel (n / 2) hashes' (omega (arith, ltb→lt 1 n t)) e' (omega arith)))
    | inr t ↦ rw t (record { hashes = hashes; result_is = refl; reads = refl; sized = e })
  ]

  -- The loops after a new leaf return, and rehash the nodes above it.
  pub update_leaf_lem :
      (slot : ℕ) (x : Hash) (hashes : List Hash)
      → length hashes ≡ leaf_base * 2
      → slot < leaf_base * 2
      → Filled
          (leaf_base * 2)
          (update_leaf sha slot x hashes)
          (rehash_up sha leaf_base (suc slot) slot (update (hash_fn hashes) slot x))
  unfolding update_leaf
  update_leaf_lem slot x hashes e lt =
      Filled-then (update_up sha (suc slot) slot) (set_at_lem hashes slot x e lt)
        λ hashes' same e'. rw (← same) (update_up_lem (suc slot) slot hashes' (omega arith) e' lt)
