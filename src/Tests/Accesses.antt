-- ===== src/Tests/Accesses.antt =====
-- A controller over stores in memory, with its one block in the tree, and its accesses.
use oram.Base.{
  ℕ, zero, suc, ◌<◌, ◌≡◌, refl, true, List, [], ◌∷◌, ◌++◌, length, All, ◌==◌, ==→eq, if◌then◌else◌,
  Bool-cases, inl, inr, arith, sum_over, get_or,
}
use oram.Base.Words.{trailing_zeros, wrapping_shl, wrapping_shr, wrapping_sub}
use oram.Base.Bytes.{IsBytes, to_le_bytes, concat}
use oram.Base.Count.{count}
use oram.Outcome.{ok}
use oram.Params.{bucket_count, path_nodes, node_index, height, leaf_bits}
use oram.Block.{OramBlock}
use oram.Block
use oram.Block.Laws.{holds_id}
use oram.Block.Shape.{IsBlock, dummy-IsBlock}
use oram.Meta.{circuit_meta_page_bytes}
use oram.Payload.{circuit_payload_page_bytes}
use oram.Stash.Laws.{has_free}
use oram.Select.Pages.{IsBucket, meta_page, payload_page}
use oram.Select.Remove.{on_path}
use oram.Store.Stored.{IsStored}
use oram.Store.Mem.{mem_view}
use oram.Store.Mem.Laws.{mem_store}
use oram.Memory.{IsRight, IsPlaced, IsMemory, copies}
use oram.Controller.{CircuitOram, access, dummy_access}
use oram.Controller.Access.{Accessed, access_lem}
use oram.Controller.Dummy.{DummyDone, dummy_access_lem}
use oram.Controller.Batch.{dummy_access_batch}
use oram.Controller.Batch.Dummies.{DummiesDone, dummy_access_batch_lem}
use oram.Controller.Invariant.{IsOram}
use oram.Schedule.{validate_for_params, pending_evictions}
use oram.Build.{validate_circuit_state, check_leaves, check_blocks}
use oram.Build.Checks.{IsChecked, validate_circuit_state_ok}
use oram.Tests.Fixtures.{bool_subtle, counter, small, block_of}
use oram.Tests.Values.{small-IsTree, busy, busy-IsConsistent}

abbrev dummy_bytes : List ℕ
dummy_bytes = 0 ∷ 255 ∷ 255 ∷ 255 ∷ 255 ∷ 255 ∷ 255 ∷ 255 ∷ 255 ∷ 255 ∷ 255 ∷ 255 ∷ 255 ∷ []

abbrev tree : ℕ → List OramBlock
tree n = if n == 2 then (block_of 0 7 ∷ []) else (Block.dummy 1 ∷ [])

abbrev values : ℕ → List ℕ
values id = 7 ∷ []

abbrev controller : CircuitOram counter mem_store mem_store
controller = record {
  params = small;
  meta_store = record {
    size = 13;
    pages = meta_page (tree 0) ++ (meta_page (tree 1) ++ meta_page (tree 2));
  };
  payload_store = record { size = 1; pages = 0 ∷ 0 ∷ 7 ∷ [] };
  pos_map = 1 ∷ [];
  stash = Block.dummy 1 ∷ [];
  rng = 4;
  schedule = busy;
}

metas-IsStored :
    IsStored mem_view controller.meta_store
      (circuit_meta_page_bytes 1)
      (bucket_count small)
      (λ n. meta_page (tree n))
unfolding meta_page bucket_count circuit_meta_page_bytes to_le_bytes concat Block.dummy
metas-IsStored = record {
  valid = record { size_pos = omega arith; whole = refl };
  size_is = refl;
  count_is = refl;
  pages_are = pages;
}
  where
    pages : (n : ℕ) → n < 3 → mem_view.page controller.meta_store n ≡ meta_page (tree n)
    pages zero h = refl
    pages (suc zero) h = refl
    pages (suc (suc zero)) h = refl
    pages (suc (suc (suc n))) h = absurd (omega arith)

payloads-IsStored :
    IsStored mem_view controller.payload_store
      (circuit_payload_page_bytes 1 1)
      (bucket_count small)
      (λ n. payload_page (tree n))
unfolding payload_page bucket_count circuit_payload_page_bytes concat Block.dummy
payloads-IsStored = record {
  valid = record { size_pos = omega arith; whole = refl };
  size_is = refl;
  count_is = refl;
  pages_are = pages;
}
  where
    pages : (n : ℕ) → n < 3 → mem_view.page controller.payload_store n ≡ payload_page (tree n)
    pages zero h = refl
    pages (suc zero) h = refl
    pages (suc (suc zero)) h = refl
    pages (suc (suc (suc n))) h = absurd (omega arith)

seven-IsBlock : IsBlock 1 (block_of 0 7)
seven-IsBlock = record {
  sized = refl;
  bytes = (omega arith, tt);
  id_fits = omega arith;
  leaf_fits = omega arith;
}

tree_buckets : (n : ℕ) → IsBucket 1 1 (tree n)
tree_buckets n = elim (Bool-cases (n == 2)) [
  | inl e ↦ rw e (record { slots = refl; blocks = (seven-IsBlock, tt) })
  | inr e ↦ rw e (record { slots = refl; blocks = (dummy-IsBlock 1, tt) })
]

dummy-IsPlaced :
    (n id : ℕ)
    → holds_id (Block.dummy 1) id ≡ true
    → IsRight small (1 ∷ []) values (Block.dummy 1) id
      × (on_path (path_nodes small (get_or (1 ∷ []) id 0)) n ≡ true)
unfolding Block.dummy
dummy-IsPlaced n id h = absurd (ground arith)

block-IsPlaced : IsPlaced small (1 ∷ []) values 2 (block_of 0 7)
unfolding on_path path_nodes node_index height leaf_bits trailing_zeros wrapping_shl wrapping_shr
    wrapping_sub
block-IsPlaced zero h =
    (record { id_in_range = omega arith; payload_is = refl; leaf_is = refl }, refl)
block-IsPlaced (suc id) h = absurd (ground arith)

tree-IsPlaced : (n : ℕ) → All (IsPlaced small (1 ∷ []) values n) (tree n)
tree-IsPlaced n = elim (Bool-cases (n == 2)) [
  | inl e ↦ rw e (rw (==→eq n 2 e) (block-IsPlaced, tt))
  | inr e ↦ rw e (dummy-IsPlaced n, tt)
]

one_copy : (id : ℕ) → id < 1 → copies small (Block.dummy 1 ∷ []) tree id ≡ 1
unfolding count sum_over bucket_count Block.dummy
one_copy zero h = refl
one_copy (suc id) h = absurd (omega arith)

controller-IsMemory : IsMemory small (1 ∷ []) (Block.dummy 1 ∷ []) tree values
controller-IsMemory = record {
  pos_map_sized = refl;
  leaves_in_range = (omega arith, tt);
  stash_sized = refl;
  stash_blocks = (dummy-IsBlock 1, tt);
  stash_right = (λ id h. (dummy-IsPlaced 0 id h).0, tt);
  buckets = λ n h. tree_buckets n;
  placed = λ n h. tree-IsPlaced n;
  once = one_copy;
  values_sized = λ id h. refl;
  values_bytes = λ id h. (omega arith, tt);
}

controller-IsOram : IsOram controller tree values
controller-IsOram = record {
  is_tree = small-IsTree;
  block_size_pos = omega arith;
  meta_stored = metas-IsStored;
  payload_stored = payloads-IsStored;
  memory = controller-IsMemory;
  schedule_ok = busy-IsConsistent;
}

-- The closure of the access sets the byte.
set_nine : List ℕ → List ℕ
set_nine [] = []
set_nine (x ∷ xs) = 9 ∷ xs

set_nine_keeps :
    (x : List ℕ) → length x ≡ 1 → IsBytes x → (length (set_nine x) ≡ 1) × IsBytes (set_nine x)
unfolding set_nine
set_nine_keeps [] e h = absurd (omega arith)
set_nine_keeps (x ∷ xs) e h = (e, (omega arith, h.1))

controller_free : has_free controller.stash ≡ true
unfolding has_free Block.dummy
controller_free = refl

access_lem_example :
    Accessed bool_subtle counter mem_store mem_store controller values 0
      (set_nine (values 0))
      (access bool_subtle counter mem_store mem_store 0 set_nine controller)
access_lem_example =
    access_lem bool_subtle counter mem_store mem_store controller tree values controller-IsOram 0
      (omega arith) controller_free (omega arith, omega arith) set_nine set_nine_keeps

dummy_access_lem_example :
    DummyDone bool_subtle counter mem_store mem_store controller tree values
      (dummy_access bool_subtle counter mem_store mem_store controller)
dummy_access_lem_example =
    dummy_access_lem bool_subtle counter mem_store mem_store controller tree values
      controller-IsOram (omega arith, omega arith)

dummy_access_batch_lem_example :
    DummiesDone bool_subtle counter mem_store mem_store controller tree values 2
      (dummy_access_batch bool_subtle counter mem_store mem_store 2 controller)
dummy_access_batch_lem_example =
    dummy_access_batch_lem bool_subtle counter mem_store mem_store controller tree values 2
      controller-IsOram (omega arith) (omega arith)

state_checked : validate_circuit_state small (1 ∷ []) (block_of 0 7 ∷ []) busy ≡ ok tt
unfolding validate_circuit_state check_leaves check_blocks validate_for_params pending_evictions
    leaf_bits trailing_zeros
state_checked = refl

validate_circuit_state_ok_example :
    (length controller.pos_map ≡ small.logical_blocks)
    × All (λ leaf. leaf < small.leaves) controller.pos_map
    × All (IsChecked small) (block_of 0 7 ∷ [])
    × (busy.leaf_bits ≡ leaf_bits small)
validate_circuit_state_ok_example =
    validate_circuit_state_ok small (1 ∷ []) (block_of 0 7 ∷ []) busy state_checked
