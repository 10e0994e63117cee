-- ===== src/PosMap/Batch.antt =====
-- src/circuit.rs: the batched scans of the position map do what the single ones do in turn.
use oram.Base.{
  ℕ, suc, ◌<◌, ◌≡◌, refl, sym, ap, ap₂, ◌∙◌, List, [], ◌∷◌, ◌++◌, map, length, replicate, All,
  All-map, All-append, length-set, length-append, take-append, get_or-middle, arith,
}
use mathlib.Core.List.{append_assoc}
use oram.Ct.{Subtle, eq_u64, cmov_u32}
use oram.Ct.Laws.{cmov_u32_lem, holds-eq_u64}
use oram.PosMap.{
  lookup_from, update_from, match_all, lookup_batch_from, last_match, update_batch_from,
  repeated_leaf, batch_leaves_from, batch_access_leaves, scan_pos_map_lookup, scan_pos_map_update,
  scan_pos_map_lookup_batch, scan_pos_map_update_batch,
}
use oram.PosMap.Laws.{scan_pos_map_update_lem, lookup-update}

-- The updates of a batch, one after the other.
pub update_in_turn : Subtle → List ℕ → List ℕ → List ℕ → List ℕ
update_in_turn S pos_map [] new_leaves = pos_map
update_in_turn S pos_map (id ∷ ids) [] = pos_map
update_in_turn S pos_map (id ∷ ids) (leaf ∷ leaves) =
    update_in_turn S (scan_pos_map_update S pos_map id leaf) ids leaves

module _ (S : Subtle) where
  match_all-nil : (idx x : ℕ) (ids : List ℕ) → match_all S idx x ids [] ≡ []
  unfolding match_all
  match_all-nil idx x [] = refl
  match_all-nil idx x (id ∷ ids) = refl

  lookup_batch-nil :
      (pos_map : List ℕ) (idx : ℕ) (ids : List ℕ) → lookup_batch_from S idx pos_map ids [] ≡ []
  unfolding lookup_batch_from
  lookup_batch-nil [] idx ids = refl
  lookup_batch-nil (x ∷ xs) idx ids =
      ap (lookup_batch_from S (suc idx) xs ids) (match_all-nil idx x ids)
      ∙ lookup_batch-nil xs (suc idx) ids

  -- A pass over the map serves every position of the batch for itself.
  lookup_batch-cons :
      (pos_map : List ℕ) (idx id leaf : ℕ) (ids leaves : List ℕ)
      → lookup_batch_from S idx pos_map (id ∷ ids) (leaf ∷ leaves)
        ≡ lookup_from S idx pos_map id leaf ∷ lookup_batch_from S idx pos_map ids leaves
  unfolding lookup_batch_from lookup_from match_all
  lookup_batch-cons [] idx id leaf ids leaves = refl
  lookup_batch-cons (x ∷ xs) idx id leaf ids leaves =
      lookup_batch-cons xs (suc idx) id (cmov_u32 S leaf x (eq_u64 S idx id)) ids
        (match_all S idx x ids leaves)

  lookup_batch_zeros :
      (pos_map ids : List ℕ)
      → lookup_batch_from S 0 pos_map ids (replicate (length ids) 0)
        ≡ map (λ id. lookup_from S 0 pos_map id 0) ids
  lookup_batch_zeros pos_map [] = lookup_batch-nil pos_map 0 []
  lookup_batch_zeros pos_map (id ∷ ids) =
      lookup_batch-cons pos_map 0 id 0 ids (replicate (length ids) 0)
      ∙ ap (◌∷◌ (lookup_from S 0 pos_map id 0)) (lookup_batch_zeros pos_map ids)

  -- A batch lookup gives the results of the single lookups, in order.
  pub scan_pos_map_lookup_batch_lem :
      (pos_map ids : List ℕ)
      → scan_pos_map_lookup_batch S pos_map ids ≡ map (scan_pos_map_lookup S pos_map) ids
  unfolding scan_pos_map_lookup_batch scan_pos_map_lookup
  scan_pos_map_lookup_batch_lem pos_map ids = lookup_batch_zeros pos_map ids

  update_batch-nil :
      (pos_map : List ℕ) (idx : ℕ) (leaves : List ℕ)
      → update_batch_from S idx pos_map [] leaves ≡ pos_map
  unfolding update_batch_from last_match
  update_batch-nil [] idx leaves = refl
  update_batch-nil (x ∷ xs) idx leaves = ap (◌∷◌ x) (update_batch-nil xs (suc idx) leaves)

  update_batch-cons :
      (pos_map : List ℕ) (idx id leaf : ℕ) (ids leaves : List ℕ)
      → update_batch_from S idx pos_map (id ∷ ids) (leaf ∷ leaves)
        ≡ update_batch_from S idx (update_from S idx pos_map id leaf) ids leaves
  unfolding update_batch_from update_from last_match
  update_batch-cons [] idx id leaf ids leaves = refl
  update_batch-cons (x ∷ xs) idx id leaf ids leaves =
      let head : ℕ = last_match S idx (cmov_u32 S x leaf (eq_u64 S idx id)) ids leaves in
      ap (◌∷◌ head) (update_batch-cons xs (suc idx) id leaf ids leaves)

  -- With as many leaves as ids, a batch update equals the single updates in order, so the last of
  -- repeated ids wins.
  pub scan_pos_map_update_batch_lem :
      (pos_map ids leaves : List ℕ)
      → length ids ≡ length leaves
      → scan_pos_map_update_batch S pos_map ids leaves ≡ update_in_turn S pos_map ids leaves
  unfolding scan_pos_map_update_batch scan_pos_map_update update_in_turn
  scan_pos_map_update_batch_lem pos_map [] leaves e = update_batch-nil pos_map 0 leaves
  scan_pos_map_update_batch_lem pos_map (id ∷ ids) [] e = absurd (omega (arith, e))
  scan_pos_map_update_batch_lem pos_map (id ∷ ids) (leaf ∷ leaves) e =
      update_batch-cons pos_map 0 id leaf ids leaves
      ∙ scan_pos_map_update_batch_lem (update_from S 0 pos_map id leaf) ids leaves
          (omega (arith, e))

-- The leaves that the accesses of a batch would find if they came one after the other.
pub leaves_in_turn : Subtle → List ℕ → List ℕ → List ℕ → List ℕ
leaves_in_turn S pos_map [] new_leaves = []
leaves_in_turn S pos_map (id ∷ ids) [] = []
leaves_in_turn S pos_map (id ∷ ids) (leaf ∷ leaves) =
    scan_pos_map_lookup S pos_map id
    ∷ leaves_in_turn S (scan_pos_map_update S pos_map id leaf) ids leaves

module _ (S : Subtle) where
  length-update :
      (pos_map : List ℕ) (id v : ℕ) → length (scan_pos_map_update S pos_map id v) ≡ length pos_map
  length-update pos_map id v =
      ap length (scan_pos_map_update_lem S pos_map id v) ∙ length-set pos_map id v

  repeated_leaf_lem :
      (ids leaves pos_map : List ℕ) (id : ℕ)
      → All (λ j. j < length pos_map) ids
      → repeated_leaf S id ids leaves (scan_pos_map_lookup S pos_map id)
        ≡ scan_pos_map_lookup S (update_in_turn S pos_map ids leaves) id
  unfolding repeated_leaf update_in_turn
  repeated_leaf_lem [] leaves pos_map id h = refl
  repeated_leaf_lem (e ∷ ids) [] pos_map id h = refl
  repeated_leaf_lem (e ∷ ids) (leaf ∷ leaves) pos_map id h =
      let now : cmov_u32 S (scan_pos_map_lookup S pos_map id) leaf (eq_u64 S id e)
          ≡ scan_pos_map_lookup S (scan_pos_map_update S pos_map e leaf) id =
        ground (
          arith,
          cmov_u32_lem S (scan_pos_map_lookup S pos_map id) leaf (eq_u64 S id e),
          holds-eq_u64 S id e,
          lookup-update S pos_map e id leaf h.0,
        ) in
      ap (repeated_leaf S id ids leaves) now
      ∙ repeated_leaf_lem ids leaves (scan_pos_map_update S pos_map e leaf) id
          (All-map (λ j q. omega (arith, length-update pos_map e leaf)) ids h.1)

  update_in_turn-append :
      (ids leaves pos_map : List ℕ) (id leaf : ℕ)
      → length ids ≡ length leaves
      → update_in_turn S pos_map (ids ++ id ∷ []) (leaves ++ leaf ∷ [])
        ≡ scan_pos_map_update S (update_in_turn S pos_map ids leaves) id leaf
  unfolding update_in_turn
  update_in_turn-append [] [] pos_map id leaf e = refl
  update_in_turn-append [] (l ∷ leaves) pos_map id leaf e = absurd (omega arith)
  update_in_turn-append (j ∷ ids) [] pos_map id leaf e = absurd (omega arith)
  update_in_turn-append (j ∷ ids) (l ∷ leaves) pos_map id leaf e =
      update_in_turn-append ids leaves (scan_pos_map_update S pos_map j l) id leaf (omega arith)

  batch_from :
      (pos_map done done_leaves ids leaves : List ℕ) (i : ℕ)
      → length done ≡ i
      → length done_leaves ≡ i
      → length ids ≡ length leaves
      → All (λ j. j < length pos_map) done
      → All (λ j. j < length pos_map) ids
      → batch_leaves_from S i
          (done ++ ids)
          (map (scan_pos_map_lookup S pos_map) ids)
          (done_leaves ++ leaves)
        ≡ leaves_in_turn S (update_in_turn S pos_map done done_leaves) ids leaves
  unfolding batch_leaves_from leaves_in_turn
  batch_from pos_map done dl [] leaves i e f g hd h = refl
  batch_from pos_map done dl (id ∷ ids) [] i e f g hd h = absurd (omega arith)
  batch_from pos_map done dl (id ∷ ids) (leaf ∷ leaves) i e f g hd h =
      ap₂ ◌∷◌
        (rw
          (
            take-append i done (id ∷ ids) e,
            take-append i dl (leaf ∷ leaves) f,
            get_or-middle done ids id i 0 e,
          )
          (repeated_leaf_lem done dl pos_map id hd))
        (rw (← append_assoc done (id ∷ []) ids, ← append_assoc dl (leaf ∷ []) leaves)
          (batch_from pos_map (done ++ id ∷ []) (dl ++ leaf ∷ []) ids leaves (suc i)
              (omega (arith, length-append done (id ∷ [])))
              (omega (arith, length-append dl (leaf ∷ []))) (omega arith)
              (All-append _ done (id ∷ []) hd (h.0, tt)) h.1
            ∙ ap (λ m. leaves_in_turn S m ids leaves)
                (update_in_turn-append done dl pos_map id leaf (e ∙ sym f))))

  -- For ids in the map and as many new leaves, the leaves of a batch are those that single lookups
  -- would give, each after the updates of the accesses before it.
  pub batch_access_leaves_lem :
      (pos_map ids leaves : List ℕ)
      → All (λ id. id < length pos_map) ids
      → length ids ≡ length leaves
      → batch_access_leaves S ids (scan_pos_map_lookup_batch S pos_map ids) leaves
        ≡ leaves_in_turn S pos_map ids leaves
  unfolding batch_access_leaves update_in_turn
  batch_access_leaves_lem pos_map ids leaves h e =
      rw (scan_pos_map_lookup_batch_lem S pos_map ids)
        (batch_from pos_map [] [] ids leaves 0 refl refl e tt h)
