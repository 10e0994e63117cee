-- ===== src/PosMap/Laws.antt =====
-- src/circuit.rs: the scans of the position map find and change one entry.
use oram.Base.{
  ℕ, zero, suc, ◌+◌, ◌<◌, ◌≡◌, refl, List, [], ◌∷◌, length, get_or, set, get_or-set, ◌==◌,
  if◌then◌else◌, arith,
}
use oram.Ct.{Subtle, eq_u64}
use oram.Ct.Laws.{cmov_u32_lem, holds-eq_u64}
use oram.PosMap.{lookup_from, scan_pos_map_lookup, update_from, scan_pos_map_update}

module _ (S : Subtle) where
  lookup_before :
      (pos_map : List ℕ) (idx id leaf : ℕ) → id < idx → lookup_from S idx pos_map id leaf ≡ leaf
  unfolding lookup_from
  lookup_before [] idx id leaf h = refl
  lookup_before (x ∷ xs) idx id leaf h = ground (
    arith,
    cmov_u32_lem S leaf x (eq_u64 S idx id),
    holds-eq_u64 S idx id,
    lookup_before xs (suc idx) id leaf,
  )

  lookup_at :
      (pos_map : List ℕ) (idx k id leaf : ℕ)
      → id ≡ idx + k
      → lookup_from S idx pos_map id leaf ≡ get_or pos_map k leaf
  unfolding lookup_from
  lookup_at [] idx k id leaf e = refl
  lookup_at (x ∷ xs) idx zero id leaf e = ground (
    arith,
    cmov_u32_lem S leaf x (eq_u64 S idx id),
    holds-eq_u64 S idx id,
    lookup_before xs (suc idx) id x,
  )
  lookup_at (x ∷ xs) idx (suc k) id leaf e = ground (
    arith,
    cmov_u32_lem S leaf x (eq_u64 S idx id),
    holds-eq_u64 S idx id,
    lookup_at xs (suc idx) k id leaf,
  )

  -- The scan over the whole map gives the entry of `logical_id`, and 0 outside the map.
  pub scan_pos_map_lookup_lem :
      (pos_map : List ℕ) (id : ℕ) → scan_pos_map_lookup S pos_map id ≡ get_or pos_map id 0
  unfolding scan_pos_map_lookup
  scan_pos_map_lookup_lem pos_map id = lookup_at pos_map 0 id id 0 (omega arith)

  update_before :
      (pos_map : List ℕ) (idx id v : ℕ) → id < idx → update_from S idx pos_map id v ≡ pos_map
  unfolding update_from
  update_before [] idx id v h = refl
  update_before (x ∷ xs) idx id v h = ground (
    arith,
    cmov_u32_lem S x v (eq_u64 S idx id),
    holds-eq_u64 S idx id,
    update_before xs (suc idx) id v,
  )

  update_at :
      (pos_map : List ℕ) (idx k id v : ℕ)
      → id ≡ idx + k
      → update_from S idx pos_map id v ≡ set pos_map k v
  unfolding update_from
  update_at [] idx k id v e = refl
  update_at (x ∷ xs) idx zero id v e = ground (
    arith,
    cmov_u32_lem S x v (eq_u64 S idx id),
    holds-eq_u64 S idx id,
    update_before xs (suc idx) id v,
  )
  update_at (x ∷ xs) idx (suc k) id v e = ground (
    arith,
    cmov_u32_lem S x v (eq_u64 S idx id),
    holds-eq_u64 S idx id,
    update_at xs (suc idx) k id v,
  )

  -- The scan over the whole map changes the entry of `logical_id` alone, and nothing outside it.
  pub scan_pos_map_update_lem :
      (pos_map : List ℕ) (id v : ℕ) → scan_pos_map_update S pos_map id v ≡ set pos_map id v
  unfolding scan_pos_map_update
  scan_pos_map_update_lem pos_map id v = update_at pos_map 0 id id v (omega arith)

  -- After an update of an id in the map, a lookup of any id gives the new leaf for that id and the
  -- former result for every other.
  pub lookup-update :
      (pos_map : List ℕ) (id j v : ℕ)
      → id < length pos_map
      → scan_pos_map_lookup S (scan_pos_map_update S pos_map id v) j
        ≡ (if id == j then v else scan_pos_map_lookup S pos_map j)
  lookup-update pos_map id j v h = rw (scan_pos_map_update_lem pos_map id v) (
      rw (scan_pos_map_lookup_lem (set pos_map id v) j, scan_pos_map_lookup_lem pos_map j)
        (get_or-set pos_map id j v 0 h))
