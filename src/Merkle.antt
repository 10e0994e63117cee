-- ===== src/Merkle.antt =====
-- src/merkle.rs: page stores with a Merkle tree over their pages. The hash function, SHA-256, is a
-- parameter: a function of the bytes that it was fed. This file has the hashes, the sizes and the
-- node numbers that both stores use; the children have the stores.
pub mod Hashes
pub mod Commit
pub mod Tree
pub mod Full
pub mod Tiered
use oram.Base.{
  ℕ, ◌+◌, ◌-◌, ◌*◌, ◌/◌, ◌%◌, ◌^◌, ◌≡◌, bit_and, bit_xor, Bool, ◌||◌, List, [], ◌∷◌, ◌++◌, length,
  set, ltb, leb, ◌==◌, if◌then◌else◌, some, none,
}
use Prim.Native.Nat.{bit_or}
use oram.Base.Words.{trailing_zeros, checked_next_power_of_two, checked_shl, wrapping_sub}
use oram.Base.Bytes.{to_le_bytes, slice, splice}
use oram.Outcome.{Result, ok, err, invalid_input, panicked, ◌>>=◌, ◌>>◌, reject_if}

-- A hash of 32 bytes.
abbrev pub Hash : Type 0
Hash = List ℕ

-- `sha2::Sha256`, its digest of all bytes fed to it.
pub record Sha256 : Type 0 where
  pub digest : List ℕ → Hash
  pub length-digest : (bytes : List ℕ) → length (digest bytes) ≡ 32

-- "bpir-oram-page-v1"
abbrev leaf_domain : List ℕ
leaf_domain =
    98 ∷ 112 ∷ 105 ∷ 114 ∷ 45 ∷ 111 ∷ 114 ∷ 97 ∷ 109 ∷ 45 ∷ 112 ∷ 97 ∷ 103 ∷ 101 ∷ 45 ∷ 118 ∷ 49
    ∷ []

-- "bpir-oram-empty-page-v1"
abbrev empty_leaf_domain : List ℕ
empty_leaf_domain =
    98 ∷ 112 ∷ 105 ∷ 114 ∷ 45 ∷ 111 ∷ 114 ∷ 97 ∷ 109 ∷ 45 ∷ 101 ∷ 109 ∷ 112 ∷ 116 ∷ 121 ∷ 45 ∷ 112
    ∷ 97 ∷ 103 ∷ 101 ∷ 45 ∷ 118 ∷ 49 ∷ []

-- "bpir-oram-node-v1"
abbrev node_domain : List ℕ
node_domain =
    98 ∷ 112 ∷ 105 ∷ 114 ∷ 45 ∷ 111 ∷ 114 ∷ 97 ∷ 109 ∷ 45 ∷ 110 ∷ 111 ∷ 100 ∷ 101 ∷ 45 ∷ 118 ∷ 49
    ∷ []

module _ (sha : Sha256) where
  unfoldable pub hash_leaf : List ℕ → ℕ → List ℕ → Hash
  hash_leaf store_id page_idx page = sha.digest (
      leaf_domain
      ++ (store_id ++ (to_le_bytes 8 page_idx ++ (to_le_bytes 8 (length page) ++ page))))

  pub hash_empty_leaf : List ℕ → ℕ → ℕ → Hash
  hash_empty_leaf store_id page_idx page_size =
      sha.digest
        (empty_leaf_domain ++ (store_id ++ (to_le_bytes 8 page_idx ++ to_le_bytes 8 page_size)))

  unfoldable pub hash_node : ℕ → Hash → Hash → Hash
  hash_node node_idx left right =
      sha.digest (node_domain ++ (to_le_bytes 8 node_idx ++ (left ++ right)))

-- The loop of `hash_eq`, over the pairs of `zip`.
unfoldable pub differences : ℕ → Hash → Hash → ℕ
differences diff [] rhs = diff
differences diff (l ∷ lhs) [] = diff
differences diff (l ∷ lhs) (r ∷ rhs) = differences (bit_or diff (bit_xor l r)) lhs rhs

unfoldable pub hash_eq : Hash → Hash → Bool
unfolding differences
hash_eq lhs rhs = differences 0 lhs rhs == 0

unfoldable pub leaf_base_for_page_count : ℕ → Result ℕ
leaf_base_for_page_count page_count = do
  reject_if (page_count == 0) invalid_input
  elim (checked_next_power_of_two page_count) [
    | none ↦ err invalid_input
    | some leaf_base ↦ ok leaf_base
  ]

unfoldable pub trusted_node_limit : ℕ → ℕ → Result ℕ
trusted_node_limit leaf_base trusted_levels = do
  reject_if (trusted_levels == 0 || ltb (trailing_zeros 64 leaf_base + 1) trusted_levels)
      invalid_input
  elim (checked_shl 1 (trusted_levels % 2 ^ 32)) [
    | none ↦ err invalid_input
    | some limit ↦ ok limit
  ]

unfoldable pub hashes_per_page : ℕ → Result ℕ
hashes_per_page page_size = do reject_if (ltb page_size 32) invalid_input; ok (page_size / 32)

unfoldable pub disk_hash_nodes : ℕ → ℕ → ℕ
disk_hash_nodes leaf_base trusted_node_limit =
    wrapping_sub (leaf_base * 2 % 2 ^ 64) trusted_node_limit

-- `div_ceil` rounds up.
unfoldable pub pages_for_hash_nodes : ℕ → ℕ → ℕ
pages_for_hash_nodes hash_nodes hashes_per_page =
    (hash_nodes + hashes_per_page - 1) / hashes_per_page

unfoldable pub sibling_node : ℕ → ℕ
sibling_node node_idx = bit_xor node_idx 1

unfoldable pub is_left_child : ℕ → Bool
is_left_child node_idx = bit_and node_idx 1 == 0

-- `xs[i] = x`, which ends the program out of bounds.
abbrev pub set_at : {A : Type 0} → List A → ℕ → A → Result (List A)
set_at xs i x = if ltb i (length xs) then ok (set xs i x) else err panicked

-- `xs[start..start + len]`, likewise.
abbrev pub slice_at : {A : Type 0} → List A → ℕ → ℕ → Result (List A)
slice_at xs start len =
    if leb (start + len) (length xs) then ok (slice start len xs) else err panicked

-- `xs[start..start + len].copy_from_slice(part)`, where `len` is the length of `part`, likewise.
abbrev pub splice_at : List ℕ → ℕ → List ℕ → Result (List ℕ)
splice_at xs start part =
    if leb (start + length part) (length xs) then ok (splice start part xs) else err panicked

unfoldable pub required_hash_pages : ℕ → ℕ → ℕ → Result ℕ
unfolding leaf_base_for_page_count trusted_node_limit
required_hash_pages page_count hash_page_size trusted_levels = do
  leaf_base ← leaf_base_for_page_count page_count
  limit ← trusted_node_limit leaf_base trusted_levels
  per_page ← hashes_per_page hash_page_size
  ok (pages_for_hash_nodes (disk_hash_nodes leaf_base limit) per_page)

unfoldable pub check_node_idx : ℕ → ℕ → Result (Unit {0})
check_node_idx leaf_base node_idx =
    reject_if (node_idx == 0 || leb (leaf_base * 2 % 2 ^ 64) node_idx) invalid_input

-- Page and byte offset of an untrusted node's hash.
unfoldable pub disk_hash_position : ℕ → ℕ → ℕ → ℕ → Result (ℕ × ℕ)
disk_hash_position trusted_node_limit disk_hash_nodes hashes_per_page node_idx = do
  reject_if (ltb node_idx trusted_node_limit) invalid_input
  reject_if (leb disk_hash_nodes (node_idx - trusted_node_limit)) invalid_input
  ok (
    (node_idx - trusted_node_limit) / hashes_per_page,
    (node_idx - trusted_node_limit) % hashes_per_page * 32,
  )
