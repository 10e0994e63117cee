-- ===== src/Evict.antt =====
-- src/circuit.rs: the eviction of a path. The blocks of the stash and of the path are candidates
-- for the slots of the path, deepest first; what finds no slot goes to the stash.
pub mod Load
pub mod Apply
pub mod Under
pub mod Offers
pub mod Placed
pub mod Plan
use oram.Base.{
  ℕ, zero, suc, ◌+◌, ◌-◌, ◌*◌, ◌^◌, ◌%◌, bit_and, Bool, true, false, not, ◌||◌, List, [], ◌∷◌, ◌++◌,
  map, length, replicate, ◌==◌, if◌then◌else◌,
}
use oram.Outcome.{Result, ok, err, invalid_input, index, expect, ◌>>=◌, ◌>>◌, reject_if}
use oram.Ct.{Subtle, choice_from_bool, and, or, eq_usize, cmov_usize}
use oram.Ct
use oram.Params.{OramParams, height, node_index}
use oram.Block.{OramBlock}
use oram.Meta.{CircuitMetaSlot, CircuitMetaBucket}
use oram.Meta
use oram.Overlay.{Overlay}

module _ (S : Subtle) where
  open S use {Choice}

  pub record CircuitEvictionCandidate : Type 0 where
    pub meta : CircuitMetaSlot
    pub active : Choice

  pub record CircuitEvictionPlacement : Type 0 where
    pub candidate_idx : ℕ
    pub occupied : Choice

  pub record CircuitEvictionPlan : Type 0 where
    pub candidates : List CircuitEvictionCandidate
    pub placements : List (List CircuitEvictionPlacement)
    pub selected : List Choice
    pub path_candidate_indices : List (List ℕ)

  unfoldable pub eviction_candidate_count : OramParams → ℕ
  eviction_candidate_count p = p.stash_capacity + height p * p.bucket_size

  pub path_metadata_from_overlay : OramParams → List ℕ → Overlay → Result (List CircuitMetaBucket)
  path_metadata_from_overlay p [] meta_overlay = ok []
  path_metadata_from_overlay p (page_idx ∷ path) meta_overlay = do
    meta_buf ← expect (meta_overlay page_idx)
    bucket ← Meta.decode meta_buf p.bucket_size
    buckets ← path_metadata_from_overlay p path meta_overlay
    ok (bucket ∷ buckets)

  pub node_contains_leaf_choice : OramParams → ℕ → ℕ → ℕ → Choice
  node_contains_leaf_choice p depth node_idx leaf =
      let safe_leaf = bit_and leaf (p.leaves - 1) % 2 ^ 32 in
      eq_usize S (node_index p depth safe_leaf) node_idx

  stash_candidate : OramBlock → CircuitEvictionCandidate
  stash_candidate block = record {
    meta = record { occupied = block.occupied; logical_id = block.logical_id; leaf = block.leaf };
    active = choice_from_bool S block.occupied;
  }

  -- The candidates of the path, with their indices counted from `next`.
  slot_candidates : List CircuitMetaSlot → List CircuitEvictionCandidate
  slot_candidates [] = []
  slot_candidates (meta ∷ slots) =
      record { meta = meta; active = choice_from_bool S meta.occupied } ∷ slot_candidates slots

  slot_indices : ℕ → List CircuitMetaSlot → List ℕ
  slot_indices next [] = []
  slot_indices next (meta ∷ slots) = next ∷ slot_indices (suc next) slots

  path_candidates :
      OramParams
      → ℕ
      → List CircuitMetaBucket
      → Result (List CircuitEvictionCandidate × List (List ℕ))
  unfolding slot_candidates slot_indices
  path_candidates p next [] = ok ([], [])
  path_candidates p next (bucket ∷ path_meta) = do
    reject_if (not (length bucket.slots == p.bucket_size)) invalid_input
    rest ← path_candidates p (next + length bucket.slots) path_meta
    ok (slot_candidates bucket.slots ++ rest.0, slot_indices next bucket.slots ∷ rest.1)

  -- One slot of the path is offered to all candidates: the first that fits and is not yet selected.
  pub record Offer : Type 0 where
    pub selected : List Choice
    pub placed : Choice
    pub placement_idx : ℕ

  pub offer :
      OramParams → ℕ → ℕ → ℕ → List CircuitEvictionCandidate → List Choice → Choice → ℕ → Offer
  offer p depth node_idx candidate_idx [] selected placed placement_idx = record {
    selected = selected;
    placed = placed;
    placement_idx = placement_idx;
  }
  offer p depth node_idx candidate_idx (candidate ∷ candidates) [] placed placement_idx = record {
    selected = [];
    placed = placed;
    placement_idx = placement_idx;
  }
  offer p depth node_idx candidate_idx (candidate ∷ candidates) (sel ∷ selected) placed
        placement_idx =
      let can_place = and S (and S candidate.active (Ct.not S sel)) (
        and S (Ct.not S placed) (node_contains_leaf_choice p depth node_idx candidate.meta.leaf)) in
      let rest : Offer =
        offer p depth node_idx (suc candidate_idx) candidates selected (or S placed can_place)
          (cmov_usize S placement_idx candidate_idx can_place) in
      record rest { selected = or S sel can_place ∷ rest.selected }

  -- The `n` slots of a bucket, and then the buckets from `depth - 1` up to the root.
  pub place_bucket :
      OramParams
      → List CircuitEvictionCandidate
      → ℕ
      → ℕ
      → ℕ
      → List Choice
      → List CircuitEvictionPlacement × List Choice
  place_bucket p candidates depth node_idx zero selected = ([], selected)
  place_bucket p candidates depth node_idx (suc n) selected =
      let one = offer p depth node_idx 0 candidates selected (choice_from_bool S false) 0 in
      let (rest, selected') = place_bucket p candidates depth node_idx n one.selected in
      (record { candidate_idx = one.placement_idx; occupied = one.placed } ∷ rest, selected')

  pub place_path :
      OramParams
      → List CircuitEvictionCandidate
      → List ℕ
      → ℕ
      → List Choice
      → Result (List (List CircuitEvictionPlacement) × List Choice)
  place_path p candidates path zero selected = ok ([], selected)
  place_path p candidates path (suc depth) selected = do
    node_idx ← index path depth
    let deepest = place_bucket p candidates depth node_idx p.bucket_size selected
    rest ← place_path p candidates path depth (deepest.1)
    ok (rest.0 ++ (deepest.0 ∷ []), rest.1)

  pub plan_eviction_placements :
      OramParams → List OramBlock → List ℕ → List CircuitMetaBucket → Result CircuitEvictionPlan
  unfolding stash_candidate path_candidates
  plan_eviction_placements p stash path path_meta = do
    reject_if (not (length path == height p) || not (length path_meta == height p)) invalid_input
    reject_if (not (length stash == p.stash_capacity)) invalid_input
    on_path ← path_candidates p (length stash) path_meta
    let candidates = map stash_candidate stash ++ on_path.0
    placed ←
        place_path p candidates path (height p)
          (replicate (length candidates) (choice_from_bool S false))
    ok (record {
      candidates = candidates;
      placements = placed.0;
      selected = placed.1;
      path_candidate_indices = on_path.1;
    })
