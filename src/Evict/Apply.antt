-- ===== src/Evict/Apply.antt =====
-- src/circuit.rs: a plan of an eviction, carried out on the stash and the overlays of the stores.
use oram.Base.{ℕ, suc, List, [], ◌∷◌, some, map, replicate, update}
use oram.Outcome.{Result, ok, err, invalid_input, stash_overflow, index, expect, reject_if}
use oram.Outcome
use oram.Outcome.Stateful.{M, pure, lift, ◌>>=◌, ◌>>◌}
use oram.Ct.{Subtle, choice_from_bool, and, eq_usize, cmov_bytes}
use oram.Ct
use oram.Params.{OramParams}
use oram.Block.{OramBlock}
use oram.Block
use oram.Meta.{CircuitMetaSlot, CircuitMetaBucket}
use oram.Meta
use oram.Payload
use oram.Payload.{CircuitPayloadBucket}
use oram.Stash.{insert_candidate_into_stash}
use oram.Overlay.{Overlays}
use oram.Evict.{
  CircuitEvictionCandidate, CircuitEvictionPlacement, CircuitEvictionPlan,
  path_metadata_from_overlay, plan_eviction_placements,
}
use oram.Evict.Load.{load_eviction_payloads_from_overlay, ensure_eviction_stash_capacity}

module _ (S : Subtle) where
  open S use {Choice, unwrap_u8}

  -- The slots of the stash that were given a place are cleared.
  pub clear_selected :
      List OramBlock → List (CircuitEvictionCandidate S) → List Choice → List OramBlock
  clear_selected [] candidates selected = []
  clear_selected (b ∷ stash) [] selected = b ∷ stash
  clear_selected (b ∷ stash) (c ∷ candidates) [] = b ∷ stash
  clear_selected (b ∷ stash) (c ∷ candidates) (s ∷ selected) =
      Block.clear_if S b (and S c.active s) ∷ clear_selected stash candidates selected

  -- The candidates of the path without a place go back to the stash.
  reinsert_bucket :
      OramParams → CircuitEvictionPlan S → List (List ℕ) → List ℕ → M (List OramBlock) (Unit {0})
  reinsert_bucket p plan payloads [] = pure tt
  reinsert_bucket p plan payloads (candidate_idx ∷ indices) = do
    candidate ← lift (index plan.candidates candidate_idx)
    selected ← lift (index plan.selected candidate_idx)
    payload ← lift (index payloads candidate_idx)
    insert_candidate_into_stash S p candidate.meta payload
        (and S candidate.active (Ct.not S selected))
    reinsert_bucket p plan payloads indices

  reinsert_path :
      OramParams
      → CircuitEvictionPlan S
      → List (List ℕ)
      → List (List ℕ)
      → M (List OramBlock) (Unit {0})
  unfolding reinsert_bucket
  reinsert_path p plan payloads [] = pure tt
  reinsert_path p plan payloads (indices ∷ rest) = do
    reinsert_bucket p plan payloads indices
    reinsert_path p plan payloads rest

  -- A slot of the path is filled by a scan of all candidates.
  pub fill_slot :
      CircuitEvictionPlacement S
      → ℕ
      → List (CircuitEvictionCandidate S)
      → List (List ℕ)
      → CircuitMetaSlot
      → List ℕ
      → CircuitMetaSlot × List ℕ
  fill_slot placement candidate_idx [] payloads meta_slot payload_slot = (meta_slot, payload_slot)
  fill_slot placement candidate_idx (c ∷ candidates) [] meta_slot payload_slot =
      (meta_slot, payload_slot)
  fill_slot placement candidate_idx (c ∷ candidates) (payload ∷ payloads) meta_slot payload_slot =
      let select = and S placement.occupied (eq_usize S placement.candidate_idx candidate_idx) in
      fill_slot placement (suc candidate_idx) candidates payloads
        (Meta.cmov_from S meta_slot c.meta select) (cmov_bytes S payload_slot payload select)

  pub fill_bucket :
      OramParams
      → CircuitEvictionPlan S
      → List (List ℕ)
      → List (CircuitEvictionPlacement S)
      → List (CircuitMetaSlot × List ℕ)
  fill_bucket p plan payloads placements =
      map
        (λ placement.
          fill_slot placement 0 plan.candidates payloads Meta.dummy (replicate p.block_size 0))
        placements

  write_overlays :
      OramParams
      → CircuitEvictionPlan S
      → List (List ℕ)
      → List ℕ
      → List (List (CircuitEvictionPlacement S))
      → M Overlays (Unit {0})
  write_overlays p plan payloads [] placements = pure tt
  write_overlays p plan payloads (page_idx ∷ path) [] = lift (err Outcome.panicked)
  write_overlays p plan payloads (page_idx ∷ path) (row ∷ placements) = do
    let slots = fill_bucket p plan payloads row
    meta_page ← lift (Meta.encode (record { slots = map (λ s. s.0) slots }) p.bucket_size)
    payload_page ←
        lift (Payload.encode (record { slots = map (λ s. s.1) slots }) p.bucket_size p.block_size)
    (λ o. (
      ok tt,
      record {
        meta = update o.meta page_idx (some meta_page);
        payload = update o.payload page_idx (some payload_page);
      },
    ))
    write_overlays p plan payloads path placements

  -- The stash and the overlays together, as the methods change both.
  pub record Evicting : Type 0 where
    pub stash : List OramBlock
    pub overlays : Overlays

  abbrev in_stash : {A : Type 0} → M (List OramBlock) A → M Evicting A
  in_stash m e = let (r, s) = m e.stash in (r, record e { stash = s })

  abbrev in_overlays : {A : Type 0} → M Overlays A → M Evicting A
  in_overlays m e = let (r, s) = m e.overlays in (r, record e { overlays = s })

  pub apply_eviction_plan_to_overlays :
      OramParams → List ℕ → List CircuitMetaBucket → CircuitEvictionPlan S → M Evicting (Unit {0})
  unfolding reinsert_path write_overlays
  apply_eviction_plan_to_overlays p path path_meta plan e =
      (do
        payloads ←
            lift (
              load_eviction_payloads_from_overlay S p e.stash path path_meta plan
                e.overlays.payload)
        lift (ensure_eviction_stash_capacity S p e.stash plan)
        in_stash (λ stash. (ok tt, clear_selected stash plan.candidates plan.selected))
        in_stash (reinsert_path p plan payloads plan.path_candidate_indices)
        in_overlays (write_overlays p plan payloads path plan.placements))
        e

  pub evict_path_in_overlays : OramParams → List ℕ → M Evicting (Unit {0})
  evict_path_in_overlays p path e =
      (do
        deepest_meta ← lift (path_metadata_from_overlay S p path e.overlays.meta)
        target_meta ← lift (path_metadata_from_overlay S p path e.overlays.meta)
        plan ← lift (plan_eviction_placements S p e.stash path target_meta)
        apply_eviction_plan_to_overlays p path target_meta plan)
        e
