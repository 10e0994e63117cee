-- ===== src/Memory/Take.antt =====
-- src/circuit.rs: the block of an id, taken from its path to the stash.
use oram.Base.{
  [], ◌∷◌, ℕ, ◌+◌, ◌≡◌, ◌<◌, refl, sym, ap, ◌∙◌, true, false, List, map, get_or, All, update,
  sum_over-eq, sum_over-update, sum_over-zero, bit, ◌==◌, ==→eq, arith, if◌then◌else◌, Bool-cases,
  inl, inr,
}
use oram.Base.Count.{count}
use oram.Params.{OramParams, bucket_count, path_nodes}
use oram.Params.Geometry.{IsTree, path_nodes-lt, path_nodes_ascend}
use oram.Block.{OramBlock}
use oram.Block
use oram.Block.Laws.{holds_id}
use oram.Block.Shape.{IsBlock, dummy-IsBlock}
use oram.Stash.Laws.{place, has_free, length-place, All-place, count-place}
use oram.Select.Laws.{
  has_id, remove_first, find_first, All-remove_first, All-find_first, find_first-holds_id,
  count-remove_first, count-no_id,
}
use oram.Select.Path.{path_has, remove_path, find_path, remove_first-IsBucket}
use oram.Select.Pages.{IsBucket}
use oram.Select.Remove.{
  on_path-All, Removed, Removed-intro, path_unchanged, find_path-none, path_has-none,
}
use oram.Store.{overwrite}
use oram.Memory.{copies, IsPlaced, IsMemory}

-- What `insert_into_stash` leaves when it succeeds.
unfoldable pub stashed : OramBlock → List OramBlock → List OramBlock
stashed b stash = if b.occupied then place b stash else stash

dummy_holds-no : (n id : ℕ) → holds_id (Block.dummy n) id ≡ false
unfolding Block.dummy
dummy_holds-no n id = refl

has_id-place :
    (id : ℕ) (b : OramBlock) (ss : List OramBlock)
    → holds_id b id ≡ true
    → has_free ss ≡ true
    → has_id id (place b ss) ≡ true
unfolding place has_free has_id
has_id-place id b [] h f = absurd (ground arith)
has_id-place id b (s ∷ ss) h f = ground (arith, has_id-place id b ss h)

module _ (p : OramParams) (pos_map : List ℕ) (stash : List OramBlock) (tree : ℕ → List OramBlock)
    (values : ℕ → List ℕ) (v : IsMemory p pos_map stash tree values) (t : IsTree p) (id : ℕ)
    (lt : id < p.logical_blocks) where
  abbrev path : List ℕ
  path = path_nodes p (get_or pos_map id 0)

  abbrev dummy : OramBlock
  dummy = Block.dummy p.block_size

  abbrev tree_after : ℕ → List OramBlock
  tree_after = overwrite tree path (remove_path p.block_size id (map tree path))

  abbrev stash_after : List OramBlock
  stash_after = stashed (find_path id dummy (map tree path)) stash

  pub record IsTaken : Type 0 where
    pub memory : IsMemory p pos_map stash_after tree_after values
    pub in_stash : has_id id stash_after ≡ true

  module _ (r : Removed p.block_size id tree path dummy) (free : has_free stash ≡ true) where
    abbrev bucket : List OramBlock
    bucket = tree r.node

    abbrev found : OramBlock
    found = find_first id dummy bucket

    abbrev tree' : ℕ → List OramBlock
    tree' = update tree r.node (remove_first p.block_size id bucket)

    node_in : r.node < bucket_count p
    node_in = on_path-All (λ i. i < bucket_count p) path r.node r.node_on_path (path_nodes-lt _ t)

    found_holds : holds_id found id ≡ true
    found_holds = find_first-holds_id id dummy bucket r.node_has

    stash_is : stash_after ≡ place found stash
    unfolding stashed
    stash_is = rw (r.found_is) (ground (arith, found_holds))

    -- A property that holds in each bucket before, and of the dummy block, holds after.
    buckets_keep :
        (P : ℕ → List OramBlock → Type 0) (n : ℕ)
        → P n (tree n)
        → (n ≡ r.node → P r.node (remove_first p.block_size id bucket))
        → P n (tree' n)
    buckets_keep P n h h' = elim (Bool-cases (r.node == n)) [
      | inl e ↦ rw e (rw (← ==→eq r.node n e) (h' (sym (==→eq r.node n e))))
      | inr e ↦ rw e h
    ]

    abbrev count_of : ℕ → List OramBlock → ℕ
    count_of j = count (λ b. holds_id b j)

    tree_count :
        (j n : ℕ)
        → count_of j (tree' n)
          ≡ update
              (λ k. count_of j (tree k))
              r.node
              (count_of j (remove_first p.block_size id bucket))
              n
    tree_count j n = elim (Bool-cases (r.node == n)) [ inl e ↦ rw e | inr e ↦ rw e ]

    removed_count :
        (j : ℕ)
        → count_of j (remove_first p.block_size id bucket) + bit (id == j) ≡ count_of j bucket
    removed_count j = ground (arith, count-remove_first p.block_size id j bucket, r.node_has)

    found_count : (j : ℕ) → holds_id found j ≡ id == j
    found_count j = ground (arith, found_holds)

    copies_kept : (j : ℕ) → copies p (place found stash) tree' j ≡ copies p stash tree j
    copies_kept j = omega (
      arith,
      sum_over-eq _ _ (bucket_count p) (λ n h. tree_count j n),
      sum_over-update (λ k. count_of j (tree k)) r.node
          (count_of j (remove_first p.block_size id bucket)) (bucket_count p) node_in,
      removed_count j,
      count-place found j stash free,
      ap bit (found_count j),
    )

    dummy-IsPlaced : (n : ℕ) → IsPlaced p pos_map values n dummy
    dummy-IsPlaced n j h = absurd (ground (arith, dummy_holds-no p.block_size j))

    moved : IsMemory p pos_map (place found stash) tree' values
    moved = record {
      pos_map_sized = v.pos_map_sized;
      leaves_in_range = v.leaves_in_range;
      stash_sized = length-place found stash ∙ v.stash_sized;
      stash_blocks =
          All-place _ found stash
            (All-find_first (IsBlock p.block_size) id dummy bucket (dummy-IsBlock p.block_size)
              (v.buckets r.node node_in).blocks)
            v.stash_blocks;
      stash_right =
          All-place _ found stash
            (λ j h.
              (All-find_first (IsPlaced p pos_map values r.node) id dummy bucket
                (dummy-IsPlaced r.node) (v.placed r.node node_in) j h).0)
            v.stash_right;
      buckets = λ n h.
          buckets_keep (λ k bl. IsBucket p.bucket_size p.block_size bl) n (v.buckets n h)
            (λ e. remove_first-IsBucket p.block_size id bucket (v.buckets r.node node_in));
      placed = λ n h.
          buckets_keep (λ k bl. All (IsPlaced p pos_map values k) bl) n (v.placed n h)
            (λ e.
              All-remove_first (IsPlaced p pos_map values r.node) p.block_size id bucket
                (dummy-IsPlaced r.node) (v.placed r.node node_in));
      once = λ j h. copies_kept j ∙ v.once j h;
      values_sized = v.values_sized;
      values_bytes = v.values_bytes;
    }

    -- The block is in a bucket of the path.
    taken_from_path : IsTaken
    taken_from_path = record {
      memory = rw stash_is (rw (r.tree_is) moved);
      in_stash = rw stash_is (has_id-place id found stash found_holds free);
    }

  module _ (none : path_has id (map tree path) ≡ false) where
    stash_same : stash_after ≡ stash
    unfolding stashed Block.dummy
    stash_same = rw (find_path-none p.block_size id tree path dummy none)

    -- No bucket of the tree has the block.
    tree_has-no : (n : ℕ) → n < bucket_count p → has_id id (tree n) ≡ false
    tree_has-no n h = elim (Bool-cases (has_id id (tree n))) [
      | inl e ↦ absurd (
          ground (
            arith,
            find_first-holds_id id dummy (tree n) e,
            path_has-none p.block_size id tree path n none
                (All-find_first (IsPlaced p pos_map values n) id dummy (tree n)
                  (λ j hh. absurd (ground (arith, dummy_holds-no p.block_size j))) (v.placed n h) id
                  (find_first-holds_id id dummy (tree n) e)).1,
          ))
      | inr e ↦ e
    ]

    already_in_stash : has_id id stash ≡ true
    already_in_stash = elim (Bool-cases (has_id id stash)) [
      | inl e ↦ e
      | inr e ↦ absurd (
          omega (
            arith,
            v.once id lt,
            count-no_id id stash e,
            sum_over-zero (λ n. count (λ b. holds_id b id) (tree n)) (bucket_count p)
                (λ n h. count-no_id id (tree n) (tree_has-no n h)),
          ))
    ]

    taken_before : IsTaken
    taken_before = record {
      memory = rw stash_same (rw (path_unchanged p.block_size id tree path none) v);
      in_stash = rw stash_same already_in_stash;
    }

  -- With a free slot in the stash, the block of an id ends in the stash, and the memory is the same.
  pub take_lem : has_free stash ≡ true → IsTaken
  take_lem free = elim (Bool-cases (path_has id (map tree path))) [
    | inl e ↦
        taken_from_path (Removed-intro p.block_size id tree path dummy (path_nodes_ascend _ t) e)
          free
    | inr e ↦ taken_before e
  ]
