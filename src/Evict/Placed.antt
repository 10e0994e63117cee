-- ===== src/Evict/Placed.antt =====
-- src/circuit.rs, `plan_eviction_placements`: what the slots of a path take of the candidates. No
-- candidate is placed twice, and each stands at a node of the path of its leaf.
use oram.Base.{
  ℕ, zero, suc, ◌+◌, ◌^◌, ◌≤◌, ◌<◌, ◌≡◌, refl, Bool, true, false, ◌&&◌, bit, ◌==◌, List, [], ◌∷◌,
  ◌++◌, length, get_elem?, some, All, Bool-cases, inl, inr, arith,
}
use oram.Outcome.{Result, ok, index}
use oram.Outcome.Steps.{index_ok}
use oram.Ct.{Subtle, choice_from_bool}
use oram.Ct.Laws.{holds, holds-choice_from_bool}
use oram.Params.{OramParams, height}
use oram.Params.Geometry.{IsTree}
use oram.Evict.{CircuitEvictionCandidate, CircuitEvictionPlacement, place_bucket, place_path}
use oram.Evict.Offers.{is_selected, Fits, offer_lem, length-offer}

module _ (S : Subtle) where
  open S use {Choice}

  -- How often candidate `j` is placed in a bucket.
  abbrev count_bucket : List (CircuitEvictionPlacement S) → ℕ → ℕ
  count_bucket [] j = 0
  count_bucket (one ∷ bucket) j =
      bit (holds S one.occupied && (one.candidate_idx == j)) + count_bucket bucket j

  -- How often candidate `j` is placed on the path.
  abbrev pub count_placed : List (List (CircuitEvictionPlacement S)) → ℕ → ℕ
  count_placed [] j = 0
  count_placed (bucket ∷ path) j = count_bucket bucket j + count_placed path j

  count_placed-snoc :
      (path : List (List (CircuitEvictionPlacement S))) (bucket : List (CircuitEvictionPlacement S))
      (j : ℕ)
      → count_placed (path ++ (bucket ∷ [])) j ≡ count_placed path j + count_bucket bucket j
  count_placed-snoc [] bucket j = omega arith
  count_placed-snoc (first ∷ path) bucket j = omega (arith, count_placed-snoc path bucket j)

module _ (S : Subtle) (p : OramParams) (candidates : List (CircuitEvictionCandidate S)) where
  open S use {Choice}

  -- A slot of a node is empty, or it has an active candidate whose leaf is under the node.
  pub FitsAt : ℕ → ℕ → CircuitEvictionPlacement S → Type 0
  FitsAt depth node_idx one =
      holds S one.occupied ≡ true
      → (c : CircuitEvictionCandidate S) × (get_elem? candidates one.candidate_idx ≡ some c)
        × Fits S p depth node_idx c

  pub data BucketFits (depth node_idx : ℕ) : ℕ → List (CircuitEvictionPlacement S) → Type 0 where
    no_slot : BucketFits depth node_idx 0 []
    one_slot :
        {n : ℕ} {one : CircuitEvictionPlacement S} {bucket : List (CircuitEvictionPlacement S)}
        → FitsAt depth node_idx one
        → BucketFits depth node_idx n bucket
        → BucketFits depth node_idx (suc n) (one ∷ bucket)

  abbrev pub IsFull : List (CircuitEvictionPlacement S) → Type 0
  IsFull = All (λ one. holds S one.occupied ≡ true)

  -- Where a slot stays empty, no candidate that is not selected by then fits the node.
  IsGreedy : ℕ → ℕ → List Choice → List (CircuitEvictionPlacement S) → Type 0
  IsGreedy depth node_idx after bucket =
      (j : ℕ) (c : CircuitEvictionCandidate S)
      → get_elem? candidates j ≡ some c
      → is_selected S after j ≡ false
      → Fits S p depth node_idx c
      → IsFull bucket

  -- Where a slot stays empty, every candidate that fits the node is placed there or deeper: the
  -- others, which are not selected in the end or are placed higher up, do not fit.
  pub IsDeepest :
      ℕ
      → ℕ
      → List Choice
      → List (List (CircuitEvictionPlacement S))
      → List (CircuitEvictionPlacement S)
      → Type 0
  IsDeepest depth node_idx after higher bucket =
      (j : ℕ) (c : CircuitEvictionCandidate S)
      → get_elem? candidates j ≡ some c
      → bit (is_selected S after j) ≤ count_placed S higher j
      → Fits S p depth node_idx c
      → IsFull bucket

  -- The first `n` nodes of the path have a bucket of slots each; each slot fits its node, and
  -- candidates are placed as deep as they fit.
  pub data PathFits (path : List ℕ) (after : List Choice)
      : ℕ → List (List (CircuitEvictionPlacement S)) → Type 0 where
    no_bucket : PathFits path after 0 []
    deepest :
        {depth node_idx : ℕ} {placements : List (List (CircuitEvictionPlacement S))}
        {bucket : List (CircuitEvictionPlacement S)}
        → PathFits path after depth placements
        → index path depth ≡ ok node_idx
        → BucketFits depth node_idx p.bucket_size bucket
        → IsDeepest depth node_idx after placements bucket
        → PathFits path after (suc depth) (placements ++ (bucket ∷ []))

  -- The selection after the placements is the one before and the candidates that they place.
  abbrev pub Counted : List Choice → List Choice → (ℕ → ℕ) → Type 0
  Counted selected after placed =
      (j : ℕ) → bit (is_selected S after j) ≡ bit (is_selected S selected j) + placed j

  record BucketPlaced (depth node_idx n : ℕ) (selected : List Choice)
      (r : List (CircuitEvictionPlacement S) × List Choice) : Type 0 where
    counted : Counted selected (r.1) (count_bucket S (r.0))
    fits : BucketFits depth node_idx n (r.0)
    greedy : IsGreedy depth node_idx (r.1) (r.0)
    as_many : length candidates ≡ length (r.1)

  unselected_before :
      (selected after : List Choice) (placed : ℕ → ℕ) (j : ℕ)
      → Counted selected after placed
      → is_selected S after j ≡ false
      → is_selected S selected j ≡ false
  unselected_before selected after placed j counts free = ground (arith, counts j, free)

  greedy-IsDeepest :
      (depth node_idx : ℕ) (selected after : List Choice)
      (higher : List (List (CircuitEvictionPlacement S)))
      (bucket : List (CircuitEvictionPlacement S))
      → Counted selected after (count_placed S higher)
      → IsGreedy depth node_idx selected bucket
      → IsDeepest depth node_idx after higher bucket
  unfolding IsGreedy IsDeepest
  greedy-IsDeepest depth node_idx selected after higher bucket counts greedy j c there few fit =
      greedy j c there (ground (arith, counts j, few)) fit

  found :
      {i : ℕ} (j : ℕ) {c : CircuitEvictionCandidate S}
      → i ≡ 0 + j
      → get_elem? candidates j ≡ some c
      → get_elem? candidates i ≡ some c
  found j at there = let e : 0 + j ≡ j = omega arith in rw at (rw e there)

  counted_at :
      (a b : ℕ) (placed : Bool) (i j : ℕ)
      → a ≡ b + bit (placed && (i == 0 + j))
      → a ≡ b + bit (placed && (i == j))
  counted_at a b placed i j h = let e : 0 + j ≡ j = omega arith in rw (← e) h

  slot_full :
      (depth node_idx : ℕ) (placed : Choice) (after : List Choice) (j : ℕ)
      (c : CircuitEvictionCandidate S)
      → get_elem? candidates j ≡ some c
      → is_selected S after j ≡ false
      → Fits S p depth node_idx c
      → (holds S placed ≡ false
          → (j : ℕ) (c : CircuitEvictionCandidate S) → get_elem? candidates j ≡ some c
          → is_selected S after j ≡ false
          → ¬ Fits S p depth node_idx c)
      → holds S placed ≡ true
  slot_full depth node_idx placed after j c there free fit missed =
      elim (Bool-cases (holds S placed)) [
        | inl u ↦ u
        | inr u ↦ absurd (missed u j c there free fit)
      ]

  place_bucket_lem :
      (depth node_idx n : ℕ) (selected : List Choice)
      → IsTree p
      → depth < height p
      → length candidates ≡ length selected
      → length candidates < 2 ^ 64
      → BucketPlaced depth node_idx n selected
          (place_bucket S p candidates depth node_idx n selected)
  unfolding place_bucket FitsAt IsGreedy
  place_bucket_lem depth node_idx zero selected t within many small = record {
    counted = λ j. omega arith;
    fits = no_slot;
    greedy = λ j c there free fit. tt;
    as_many = many;
  }
  place_bucket_lem depth node_idx (suc n) selected t within many small =
      let one =
        offer_lem S p depth node_idx 0 candidates selected (choice_from_bool S false) 0 t within
          many (omega (arith, small)) (omega arith) (holds-choice_from_bool S false) in
      let rest =
        place_bucket_lem depth node_idx n _ t within
          (length-offer S p depth node_idx 0 candidates selected (choice_from_bool S false) 0 many)
          small in
      record {
        counted = λ j. omega (arith, counted_at _ _ _ _ j (one.counts j), rest.counted j);
        fits =
            one_slot (λ h. let (j, c, at, there, fit) = one.fits h in (c, found j at there, fit))
              rest.fits;
        greedy = λ j c there free fit.
            let before = unselected_before _ _ (count_bucket S _) j rest.counted free in
            (
              slot_full depth node_idx _ _ j c there before fit one.missed,
              rest.greedy j c there free fit,
            );
        as_many = rest.as_many;
      }

  pub record PathPlaced (path : List ℕ) (n : ℕ) (selected : List Choice)
      (r : Result (List (List (CircuitEvictionPlacement S)) × List Choice)) : Type 0 where
    pub placements : List (List (CircuitEvictionPlacement S))
    pub after : List Choice
    pub result : r ≡ ok (placements, after)
    pub counted : Counted selected after (count_placed S placements)
    pub fits : PathFits path after n placements

  pub place_path_lem :
      (path : List ℕ) (n : ℕ) (selected : List Choice)
      → IsTree p
      → n ≤ height p
      → length candidates ≡ length selected
      → length candidates < 2 ^ 64
      → n ≤ length path
      → PathPlaced path n selected (place_path S p candidates path n selected)
  unfolding place_path
  place_path_lem path zero selected t within many small long = record {
    placements = [];
    after = selected;
    result = refl;
    counted = λ j. omega arith;
    fits = no_bucket;
  }
  place_path_lem path (suc depth) selected t within many small long =
      let (node_idx, there) = index_ok path depth (omega (arith, long)) in
      let first = place_bucket_lem depth node_idx p.bucket_size selected t within many small in
      let rest =
        place_path_lem path depth
          ((place_bucket S p candidates depth node_idx p.bucket_size selected).1) t
          (omega (arith, within)) first.as_many small (omega (arith, long)) in
      record {
        placements =
            rest.placements
            ++ ((place_bucket S p candidates depth node_idx p.bucket_size selected).0 ∷ []);
        after = rest.after;
        result = rw there (rw rest.result refl);
        counted = λ j.
            omega (arith, first.counted j, rest.counted j, count_placed-snoc S rest.placements _ j);
        fits = deepest rest.fits there first.fits (
            greedy-IsDeepest depth node_idx _ rest.after rest.placements _ rest.counted
              first.greedy);
      }
