-- ===== src/Tests/Merkle.antt =====
-- The Merkle stores at two pages of two bytes. The hash function of the tests sums the bytes, each
-- with its place; it stands for any function of the bytes.
use oram.Base.{
  ℕ, zero, suc, ◌+◌, ◌*◌, ◌%◌, ◌<◌, ◌≡◌, refl, ◌⊎◌, List, [], ◌∷◌, ◌++◌, length, replicate, update,
  arith,
}
use oram.Base.Bytes.{to_le_bytes}
use oram.Base.Words.{
  checked_next_power_of_two, first_power, checked_shl, trailing_zeros, wrapping_sub,
}
use oram.Outcome.{ok, err, invalid_input}
use oram.Outcome.Yields.{Yields}
use oram.Store.{Served}
use oram.Store.Mem.{MemPageStore, IsWhole, mem_view, check_page}
use oram.Store.Mem
use oram.Store.Mem.Laws.{mem_pages}
use oram.Store.Operations.{operations}
use oram.Merkle.{
  Sha256, hash_leaf, hash_node, leaf_base_for_page_count, trusted_node_limit, hashes_per_page,
  disk_hash_nodes, pages_for_hash_nodes, check_node_idx, disk_hash_position, hash_eq, differences,
  sibling_node, is_left_child,
}
use oram.Merkle.Hashes.{Collision}
use oram.Merkle.Full.{MerklePageStore}
use oram.Merkle.Full
use oram.Merkle.Full.Sealed.{IsSealed, read_authentic, write_sealed}
use oram.Merkle.Full.Build.{IsNew, new_lem}
use oram.Merkle.Tiered.{TieredMerklePageStore}
use oram.Merkle.Tiered
use oram.Merkle.Tiered.Tamper.{IsCommitted, read_page_authentic}
use oram.Merkle.Tiered.Pages.{tiered_view, read-Served, write-Served}
use oram.Merkle.Tiered.Held.{HasRoom, hash_at}
use oram.Merkle.Tiered.Packing.{hash_of}
use oram.Merkle.Commit.{AllSized}
use oram.Merkle.Tiered.Pages as TieredPages
use oram.Merkle.Tiered.Open.{trusted_state, from_trusted_state}
use oram.Merkle.Tiered.Reopen.{IsSized, IsValid-IsCommitted, reopened_authentic}
use oram.Tests.Stores.{two_pages, two_pages-IsWhole}

weigh : ℕ → List ℕ → ℕ
weigh n [] = n
weigh n (b ∷ bs) = weigh ((n * 3 + b) % 251) bs

length-sums : (bytes : List ℕ) → length (weigh 1 bytes ∷ replicate 31 0) ≡ 32
length-sums bytes = refl

abbrev sums : Sha256
sums = record { digest = λ bytes. weigh 1 bytes ∷ replicate 31 0; length-digest = length-sums }

abbrev id : List ℕ
id = replicate 16 7

whole_pages : (i : ℕ) → i < 2 → length (mem_view.page two_pages i) ≡ 2
whole_pages zero lt = refl
whole_pages (suc zero) lt = refl
whole_pages (suc (suc i)) lt = absurd (omega arith)

new_lem_example :
    IsNew sums mem_pages id two_pages (Full.new sums (operations mem_pages) id two_pages)
new_lem_example =
    new_lem sums mem_pages id two_pages two_pages-IsWhole (omega arith) (omega arith) (omega arith)
      (omega arith) whole_pages

-- The store that `new` returns.
built : IsNew sums mem_pages id two_pages (Full.new sums (operations mem_pages) id two_pages)
built =
    new_lem sums mem_pages id two_pages two_pages-IsWhole (omega arith) (omega arith) (omega arith)
      (omega arith) whole_pages

read_authentic_example :
    Yields
      (λ page s'.
        ((page ≡ mem_view.page built.store.inner 1) ⊎ Collision sums)
        × IsSealed sums s' (mem_view.page built.store.inner))
      (Full.read_page sums (operations mem_pages) 1 (0 ∷ 0 ∷ []) built.store)
read_authentic_example =
    read_authentic sums (operations mem_pages) built.store (mem_view.page built.store.inner) 1
      (0 ∷ 0 ∷ []) built.valid.sealed

write_sealed_example :
    Yields
      (λ done s'. IsSealed sums s' (update (mem_view.page built.store.inner) 1 (8 ∷ 9 ∷ [])))
      (Full.write_page sums (operations mem_pages) 1 (8 ∷ 9 ∷ []) built.store)
write_sealed_example =
    write_sealed sums (operations mem_pages) built.store (mem_view.page built.store.inner) 1
      (8 ∷ 9 ∷ []) built.valid.sealed

-- Two levels, of which only the root is trusted; both leaf hashes are on one page.
abbrev leaves : MemPageStore
leaves = record {
  size = 64;
  pages = hash_leaf sums id 0 (1 ∷ 2 ∷ []) ++ hash_leaf sums id 1 (3 ∷ 4 ∷ []);
}

abbrev tiered : TieredMerklePageStore (operations mem_pages) (operations mem_pages)
tiered = record {
  inner = two_pages;
  hash_store = leaves;
  store_id = id;
  page_size = 2;
  page_count = 2;
  leaf_base = 2;
  trusted_levels = 1;
  trusted_node_limit = 2;
  hashes_per_page = 2;
  disk_hash_nodes = 2;
  trusted_hashes =
      replicate 32 0
      ∷ hash_node sums 1 (hash_leaf sums id 0 (1 ∷ 2 ∷ [])) (hash_leaf sums id 1 (3 ∷ 4 ∷ []))
      ∷ [];
}

leaves-IsWhole : IsWhole leaves
unfolding hash_leaf
leaves-IsWhole = record { size_pos = omega arith; whole = refl }

whole_leaves : (i : ℕ) → i < 1 → length (mem_view.page leaves i) ≡ 64
unfolding hash_leaf
whole_leaves zero lt = refl
whole_leaves (suc i) lt = absurd (omega arith)

tiered_node :
    (n : ℕ)
    → 0 < n
    → n < 2
    → hash_at sums (operations mem_pages) mem_pages tiered n
      ≡ hash_node sums n
          (hash_at sums (operations mem_pages) mem_pages tiered (n * 2))
          (hash_at sums (operations mem_pages) mem_pages tiered (n * 2 + 1))
unfolding hash_leaf hash_node hash_of weigh to_le_bytes
tiered_node zero pos lt = absurd (omega arith)
tiered_node (suc zero) pos lt = refl
tiered_node (suc (suc n)) pos lt = absurd (omega arith)

tiered_leaf :
    (i : ℕ)
    → i < 2
    → hash_at sums (operations mem_pages) mem_pages tiered (2 + i)
      ≡ hash_leaf sums id i (mem_view.page two_pages i)
unfolding hash_leaf hash_of weigh to_le_bytes
tiered_leaf zero lt = refl
tiered_leaf (suc zero) lt = refl
tiered_leaf (suc (suc i)) lt = absurd (omega arith)

tiered-AllSized : AllSized 2 (hash_at sums (operations mem_pages) mem_pages tiered)
unfolding hash_leaf hash_node hash_of weigh to_le_bytes
tiered-AllSized zero lt = refl
tiered-AllSized (suc zero) lt = refl
tiered-AllSized (suc (suc zero)) lt = refl
tiered-AllSized (suc (suc (suc zero))) lt = refl
tiered-AllSized (suc (suc (suc (suc n)))) lt = absurd (omega arith)

one_page : mem_view.page_count leaves ≡ 1
unfolding hash_leaf
one_page = refl

tiered-HasRoom : HasRoom sums (operations mem_pages) mem_pages tiered
tiered-HasRoom = record {
  valid = leaves-IsWhole;
  big = omega arith;
  per_page_is = refl;
  base_fits = omega arith;
  limit_le = omega arith;
  nodes_is = refl;
  enough = omega (arith, one_page);
  whole = λ i lt. whole_leaves i (omega (arith, lt, one_page));
  trusted_len = refl;
}

tiered-IsValid : TieredPages.IsValid sums mem_pages mem_pages tiered
tiered-IsValid = record {
  inner_valid = two_pages-IsWhole;
  size_is = refl;
  count_is = refl;
  room = tiered-HasRoom;
  root_trusted = omega arith;
  count_le = omega arith;
  tree = record { inner_node = tiered_node; leaf = tiered_leaf; sized = tiered-AllSized };
}

read-Served_example :
    Served
      (tiered_view sums mem_pages mem_pages)
      tiered
      (Tiered.read_page sums (operations mem_pages) (operations mem_pages) 1 (0 ∷ 0 ∷ []) tiered)
      (mem_view.page two_pages 1)
      (mem_view.page two_pages)
read-Served_example =
    read-Served sums mem_pages mem_pages tiered tiered-IsValid 1 (omega arith) (0 ∷ 0 ∷ []) refl

write-Served_example :
    Served
      (tiered_view sums mem_pages mem_pages)
      tiered
      (Tiered.write_page sums (operations mem_pages) (operations mem_pages) 1 (8 ∷ 9 ∷ []) tiered)
      tt
      (update (mem_view.page two_pages) 1 (8 ∷ 9 ∷ []))
write-Served_example =
    write-Served sums mem_pages mem_pages tiered tiered-IsValid 1 (omega arith) (8 ∷ 9 ∷ []) refl

read_page_authentic_example :
    Yields
      (λ page s'.
        ((page ≡ mem_view.page two_pages 1) ⊎ Collision sums)
        × IsCommitted sums s' (mem_view.page two_pages))
      (Tiered.read_page sums (operations mem_pages) (operations mem_pages) 1 (0 ∷ 0 ∷ []) tiered)
read_page_authentic_example =
    read_page_authentic sums (operations mem_pages) (operations mem_pages) tiered
      (mem_view.page two_pages) 1 (0 ∷ 0 ∷ [])
      (IsValid-IsCommitted sums mem_pages mem_pages tiered tiered-IsValid)

tiered-IsSized : IsSized tiered
unfolding leaf_base_for_page_count trusted_node_limit checked_next_power_of_two first_power
    checked_shl trailing_zeros
tiered-IsSized = record { base_is = refl; limit_is = refl }

tiered_reopened :
    from_trusted_state
      (operations mem_pages)
      (operations mem_pages)
      two_pages
      leaves
      (trusted_state (operations mem_pages) (operations mem_pages) tiered)
    ≡ ok tiered
unfolding from_trusted_state trusted_state leaf_base_for_page_count trusted_node_limit
    checked_next_power_of_two first_power checked_shl trailing_zeros hashes_per_page disk_hash_nodes
    pages_for_hash_nodes hash_leaf wrapping_sub
tiered_reopened = refl

reopened_authentic_example :
    Yields
      (λ page s'.
        ((page ≡ mem_view.page two_pages 1) ⊎ Collision sums)
        × IsCommitted sums s' (mem_view.page two_pages))
      (Tiered.read_page sums (operations mem_pages) (operations mem_pages) 1 (0 ∷ 0 ∷ []) tiered)
reopened_authentic_example =
    reopened_authentic sums mem_pages mem_pages tiered tiered-IsValid (operations mem_pages)
      (operations mem_pages) two_pages leaves tiered-IsSized tiered tiered_reopened 1 (0 ∷ 0 ∷ [])

-- A disk that answers with an older page 1, (5, 6), and with the leaf hash of that page.
abbrev rolled_back : TieredMerklePageStore (operations mem_pages) (operations mem_pages)
rolled_back = record tiered {
  inner = record { size = 2; pages = 1 ∷ 2 ∷ 5 ∷ 6 ∷ [] };
  hash_store = record {
    size = 64;
    pages = hash_leaf sums id 0 (1 ∷ 2 ∷ []) ++ hash_leaf sums id 1 (5 ∷ 6 ∷ []);
  };
}

-- A read finds the old page out.
rolled_back_read :
    (Tiered.read_page sums
      (operations mem_pages)
      (operations mem_pages)
      1
      (0 ∷ 0 ∷ [])
      rolled_back).0
    ≡ err invalid_input
unfolding Tiered.read_page Tiered.on_inner Tiered.verify_page_hash Tiered.climb Tiered.read_hash
    Tiered.read_disk_hash Tiered.on_hashes Tiered.hash_parent check_page Mem.read_page
    check_node_idx disk_hash_position hash_leaf hash_node hash_eq differences sibling_node
    is_left_child to_le_bytes weigh
rolled_back_read = refl

-- A write of page 0 takes the sibling's hash from the disk as it is: after it, the trusted root stands
-- for the old page, and the read that failed succeeds with it.
rolled_back_write_read :
    (Tiered.read_page sums
      (operations mem_pages)
      (operations mem_pages)
      1
      (0 ∷ 0 ∷ [])
      (Tiered.write_page sums
        (operations mem_pages)
        (operations mem_pages)
        0
        (1 ∷ 2 ∷ [])
        rolled_back).1).0
    ≡ ok (5 ∷ 6 ∷ [])
unfolding Tiered.read_page Tiered.on_inner Tiered.verify_page_hash Tiered.climb Tiered.read_hash
    Tiered.read_disk_hash Tiered.on_hashes Tiered.hash_parent Tiered.write_page
    Tiered.update_page_hash Tiered.update_up Tiered.write_hash Tiered.write_disk_hash check_page
    Mem.read_page Mem.write_page check_node_idx disk_hash_position hash_leaf hash_node hash_eq
    differences sibling_node is_left_child to_le_bytes weigh
rolled_back_write_read = refl
