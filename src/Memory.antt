-- ===== src/Memory.antt =====
-- src/circuit.rs, the memory that a `CircuitOram` stands for: a value for each logical id, held by
-- the blocks of the tree and the stash. `tree` gives the blocks of each bucket, decoded.
pub mod Take
pub mod Relabel
use oram.Base.{ℕ, ◌+◌, ◌≡◌, ◌<◌, Bool, true, List, length, get_or, All, sum_over}
use oram.Base.Bytes.{IsBytes}
use oram.Base.Count.{count}
use oram.Params.{OramParams, bucket_count, path_nodes}
use oram.Block.{OramBlock}
use oram.Block.Laws.{holds_id}
use oram.Block.Shape.{IsBlock}
use oram.Select.Pages.{IsBucket}
use oram.Select.Remove.{on_path}

-- How many blocks hold an id.
abbrev pub copies : OramParams → List OramBlock → (ℕ → List OramBlock) → ℕ → ℕ
copies p stash tree id =
    count (λ b. holds_id b id) stash
    + sum_over (λ n. count (λ b. holds_id b id) (tree n)) (bucket_count p)

-- A real block holds the value of its id, and the leaf the position map has for it.
pub record IsRight (p : OramParams) (pos_map : List ℕ) (values : ℕ → List ℕ) (b : OramBlock)
    (id : ℕ) : Type 0 where
  pub id_in_range : id < p.logical_blocks
  pub payload_is : b.payload ≡ values id
  pub leaf_is : b.leaf ≡ get_or pos_map id 0

-- A block of a bucket also lies on the path to its leaf.
abbrev pub IsPlaced : OramParams → List ℕ → (ℕ → List ℕ) → ℕ → OramBlock → Type 0
IsPlaced p pos_map values n b =
    (id : ℕ)
    → holds_id b id ≡ true
    → IsRight p pos_map values b id × (on_path (path_nodes p (get_or pos_map id 0)) n ≡ true)

-- The blocks of the stash and of the tree hold each value once, where the position map says.
pub record IsMemory (p : OramParams) (pos_map : List ℕ) (stash : List OramBlock)
    (tree : ℕ → List OramBlock) (values : ℕ → List ℕ) : Type 0 where
  pub pos_map_sized : length pos_map ≡ p.logical_blocks
  pub leaves_in_range : All (λ leaf. leaf < p.leaves) pos_map
  pub stash_sized : length stash ≡ p.stash_capacity
  pub stash_blocks : All (IsBlock p.block_size) stash
  pub stash_right : All (λ b. (id : ℕ) → holds_id b id ≡ true → IsRight p pos_map values b id) stash
  pub buckets : (n : ℕ) → n < bucket_count p → IsBucket p.bucket_size p.block_size (tree n)
  pub placed : (n : ℕ) → n < bucket_count p → All (IsPlaced p pos_map values n) (tree n)
  pub once : (id : ℕ) → id < p.logical_blocks → copies p stash tree id ≡ 1
  pub values_sized : (id : ℕ) → id < p.logical_blocks → length (values id) ≡ p.block_size
  pub values_bytes : (id : ℕ) → id < p.logical_blocks → IsBytes (values id)
