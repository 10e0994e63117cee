-- ===== src/Evict/Plan.antt =====
-- src/circuit.rs, `plan_eviction_placements`: the plan as a whole. The candidates are the blocks of the
-- stash and the slots of the path in order, and no candidate is placed twice.
use oram.Base.{
  length-replicate, sym, ℕ, zero, suc, ◌+◌, ◌*◌, ◌^◌, ◌<◌, ◌≡◌, refl, ap, false, bit, eq→==, List,
  [], ◌∷◌, ◌++◌, map, length, replicate, length-append, length-map, All, arith,
}
use oram.Outcome.{Result, ok}
use oram.Ct.{Subtle, choice_from_bool}
use oram.Ct.Laws.{holds-choice_from_bool}
use oram.Params.Geometry.{IsTree}
use oram.Params.{OramParams, height}
use oram.Block.{OramBlock}
use oram.Meta.{CircuitMetaSlot, CircuitMetaBucket}
use oram.Evict.{
  CircuitEvictionCandidate, CircuitEvictionPlan, eviction_candidate_count, slot_candidates,
  slot_indices, stash_candidate, path_candidates, plan_eviction_placements,
}
use oram.Evict.Offers.{is_selected}
use oram.Evict.Placed.{count_placed, PathFits, place_path_lem}

module _ (S : Subtle) where
  open S use {Choice}

  -- A candidate for each slot: it is active when the slot is occupied.
  pub candidate : CircuitMetaSlot → CircuitEvictionCandidate S
  candidate meta = record { meta = meta; active = choice_from_bool S meta.occupied }

  pub block_slot : OramBlock → CircuitMetaSlot
  block_slot block = record {
    occupied = block.occupied;
    logical_id = block.logical_id;
    leaf = block.leaf;
  }

  pub path_slots : List CircuitMetaBucket → List CircuitMetaSlot
  path_slots [] = []
  path_slots (bucket ∷ path_meta) = bucket.slots ++ path_slots path_meta

  slot_candidates_lem :
      (slots : List CircuitMetaSlot) → slot_candidates S slots ≡ map candidate slots
  unfolding slot_candidates candidate
  slot_candidates_lem [] = refl
  slot_candidates_lem (meta ∷ slots) = ap (◌∷◌ (candidate meta)) (slot_candidates_lem slots)

  none_selected : (n j : ℕ) → is_selected S (replicate n (choice_from_bool S false)) j ≡ false
  none_selected zero j = refl
  none_selected (suc n) zero = holds-choice_from_bool S false
  none_selected (suc n) (suc j) = none_selected n j

  stash_candidates_lem :
      (stash : List OramBlock)
      → map (stash_candidate S) stash ≡ map candidate (map block_slot stash)
  unfolding stash_candidate candidate block_slot
  stash_candidates_lem [] = refl
  stash_candidates_lem (block ∷ stash) =
      ap (◌∷◌ (candidate (block_slot block))) (stash_candidates_lem stash)

  map-append :
      (xs ys : List CircuitMetaSlot)
      → map candidate xs ++ map candidate ys ≡ map candidate (xs ++ ys)
  map-append [] ys = refl
  map-append (x ∷ xs) ys = ap (◌∷◌ (candidate x)) (map-append xs ys)

  pub all_slots : List OramBlock → List CircuitMetaBucket → List CircuitMetaSlot
  all_slots stash path_meta = map block_slot stash ++ path_slots path_meta

module _ (S : Subtle) (p : OramParams) where
  open S use {Choice}

  abbrev pub HasSlots : CircuitMetaBucket → Type 0
  HasSlots bucket = length bucket.slots ≡ p.bucket_size

  length-path_slots :
      (path_meta : List CircuitMetaBucket)
      → All HasSlots path_meta
      → length (path_slots S path_meta) ≡ length path_meta * p.bucket_size
  unfolding path_slots
  length-path_slots [] a = omega arith
  length-path_slots (bucket ∷ path_meta) a = ground (
    arith,
    length-append bucket.slots (path_slots S path_meta),
    a.0,
    length-path_slots path_meta a.1,
  )

  path_candidates_lem :
      (next : ℕ) (path_meta : List CircuitMetaBucket)
      → All HasSlots path_meta
      → (indices : List (List ℕ)) × (path_candidates S p next path_meta
          ≡ ok (map (candidate S) (path_slots S path_meta), indices))
  unfolding path_candidates path_slots
  path_candidates_lem next [] a = ([], refl)
  path_candidates_lem next (bucket ∷ path_meta) a =
      let (indices, rest) = path_candidates_lem (next + length bucket.slots) path_meta a.1 in
      (
        slot_indices S next bucket.slots ∷ indices,
        rw (eq→== (length bucket.slots) p.bucket_size a.0) (
            rw rest (
              rw (slot_candidates_lem S bucket.slots)
                (rw (map-append S bucket.slots (path_slots S path_meta)) refl))),
      )

  pub record Planned (stash : List OramBlock) (path : List ℕ) (path_meta : List CircuitMetaBucket)
      (r : Result (CircuitEvictionPlan S)) : Type 0 where
    pub plan : CircuitEvictionPlan S
    pub result : r ≡ ok plan
    pub candidates : plan.candidates ≡ map (candidate S) (all_slots S stash path_meta)
    pub counted : (j : ℕ) → count_placed S plan.placements j ≡ bit (is_selected S plan.selected j)
    pub fits : PathFits S p plan.candidates path plan.selected (height p) plan.placements

  -- In a valid tree, for a stash of the capacity and a path of as many nodes as the tree has
  -- levels whose buckets have the bucket size, and fewer than 2 ^ 64 candidates, a plan is
  -- returned. Its candidates are the blocks of the stash and the slots of the path in order; each
  -- node of the path has as many placements as slots, and each of these is empty or has an active
  -- candidate with a leaf whose node at that depth is this one, by its first bits. A candidate is
  -- placed once if it is selected, and else not at all. If an active candidate with a leaf under a
  -- node is placed neither there nor deeper, no slot of that node is empty.
  pub plan_eviction_placements_lem :
      (stash : List OramBlock) (path : List ℕ) (path_meta : List CircuitMetaBucket)
      → IsTree p
      → length stash ≡ p.stash_capacity
      → length path ≡ height p
      → length path_meta ≡ height p
      → All HasSlots path_meta
      → eviction_candidate_count S p < 2 ^ 64
      → Planned stash path path_meta (plan_eviction_placements S p stash path path_meta)
  unfolding plan_eviction_placements eviction_candidate_count all_slots
  plan_eviction_placements_lem stash path path_meta t n m k sized small =
      let (indices, on_path) = path_candidates_lem (length stash) path_meta sized in
      let cs = map (candidate S) (all_slots S stash path_meta) in
      let same : map (stash_candidate S) stash ++ map (candidate S) (path_slots S path_meta) ≡ cs =
        rw (stash_candidates_lem S stash)
          (map-append S (map (block_slot S) stash) (path_slots S path_meta)) in
      let few : length cs < 2 ^ 64 = omega (
        arith,
        n,
        k,
        small,
        length-map (all_slots S stash path_meta) (candidate S),
        length-append (map (block_slot S) stash) (path_slots S path_meta),
        length-map stash (block_slot S),
        length-path_slots path_meta sized,
        ap (λ n. n * p.bucket_size) k,
      ) in
      let placed =
        place_path_lem S p cs path (height p) (replicate (length cs) (choice_from_bool S false)) t
          (omega arith) (sym (length-replicate (length cs) (choice_from_bool S false))) few
          (omega (arith, m)) in
      record {
        plan = record {
          candidates = cs;
          placements = placed.placements;
          selected = placed.after;
          path_candidate_indices = indices;
        };
        result = rw (eq→== (length stash) p.stash_capacity n) (
            rw (eq→== (length path) (height p) m) (
              rw (eq→== (length path_meta) (height p) k)
                (rw on_path (rw same (rw placed.result refl)))));
        candidates = refl;
        counted = λ j. ground (arith, placed.counted j, none_selected S (length cs) j);
        fits = placed.fits;
      }
