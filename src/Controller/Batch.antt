-- ===== src/Controller/Batch.antt =====
-- src/circuit.rs: the operations of a `CircuitOram` on several paths at once, over overlays.
pub mod Dummies
use oram.Base.{
  ℕ, zero, suc, Bool, false, ◌||◌, List, [], ◌∷◌, map, length, replicate, range_from, min, leb,
  ◌==◌, if◌then◌else◌,
}
use oram.Outcome.{ok, err, invalid_input, block_not_found}
use oram.Outcome.Stateful.{M, continue, pure, lift, get, ◌>>=◌, ◌>>◌}
use oram.Ct.{Subtle, choice_from_bool}
use oram.Ct
use oram.Params.{OramParams, path_nodes}
use oram.Schedule.{record_access, pending_evictions, complete_one_eviction, eviction_leaf_at}
use oram.Meta.{circuit_meta_page_bytes}
use oram.Payload.{circuit_payload_page_bytes}
use oram.PosMap.{scan_pos_map_lookup_batch, scan_pos_map_update_batch, batch_access_leaves}
use oram.Overlay.{Overlays, overlay_path_pages, collect_overlay_paths, remove_target_from_overlays}
use oram.Evict.Apply.{Evicting, evict_path_in_overlays}
use oram.Store.{PathPageStore}
use oram.Controller.{
  Rng, CircuitOram, random_leaf, scan_stash, relabel_stash, on_meta, on_payload, on_stash,
  on_schedule, check,
}

-- `n` leaves, drawn in turn.
pub random_leaves : (R : Rng) → OramParams → ℕ → R.State → List ℕ × R.State
random_leaves R p zero rng = ([], rng)
random_leaves R p (suc n) rng =
    let (leaf, rng') = random_leaf R p rng in
    let (leaves, rng'') = random_leaves R p n rng' in (leaf ∷ leaves, rng'')

-- The first check of `access_batch`, over all ids.
pub any_out_of_range : OramParams → List ℕ → Bool
any_out_of_range p [] = false
any_out_of_range p (logical_id ∷ ids) = leb p.logical_blocks logical_id || any_out_of_range p ids

module _ (S : Subtle) (R : Rng) (MS PS : PathPageStore) where
  abbrev Oram : Type 0
  Oram = CircuitOram R MS PS

  -- The paths are read from both stores, and kept as overlays.
  pub fetch : List (List ℕ) → M Oram Overlays
  fetch paths o =
      let p = o.params in
      (do
        meta_path_pages ← on_meta S R MS PS (MS.read_paths_pages paths)
        payload_path_pages ← on_payload S R MS PS (PS.read_paths_pages paths)
        meta ←
            lift (overlay_path_pages paths meta_path_pages (circuit_meta_page_bytes p.bucket_size))
        payload ← lift (
            overlay_path_pages paths payload_path_pages
              (circuit_payload_page_bytes p.bucket_size p.block_size))
        pure (record { meta = meta; payload = payload }))
        o

  pub write_back : List (List ℕ) → Overlays → M Oram (Unit {0})
  write_back paths overlays = do
    meta_pages ← lift (collect_overlay_paths paths overlays.meta)
    payload_pages ← lift (collect_overlay_paths paths overlays.payload)
    on_meta S R MS PS (MS.write_paths_pages paths meta_pages)
    on_payload S R MS PS (PS.write_paths_pages paths payload_pages)

  record_accesses : ℕ → M Oram (Unit {0})
  record_accesses zero = pure tt
  record_accesses (suc n) = do on_schedule S R MS PS record_access; record_accesses n

  pub dummy_access_batch : ℕ → M Oram (Unit {0})
  unfolding check record_accesses
  dummy_access_batch count o =
      if count == 0
      then (ok tt, o)
      else let (leaves, rng') = random_leaves R o.params count o.rng in
        let paths = map (path_nodes o.params) leaves in
        (do
          overlays ← fetch paths
          write_back paths overlays
          record_accesses count
          check S R MS PS)
          (record o { rng = rng' })

  -- One access of a batch, once its path is in the overlays.
  take_one : ℕ → ℕ → (ℕ → List ℕ → List ℕ) → M Oram (List ℕ)
  take_one logical_id new_leaf update o =
      let (output, found) =
        scan_stash S logical_id o.stash (replicate o.params.block_size 0)
          (choice_from_bool S false) in
      if S.unwrap_u8 (Ct.not S found) == 1
      then (err (block_not_found logical_id), o)
      else (do on_schedule S R MS PS record_access; pure output)
          (record o {
            stash = relabel_stash S logical_id (update logical_id output) new_leaf o.stash;
          })

  -- The loop over the accesses of a batch, with the outputs in their order.
  take_each :
      List ℕ
      → List ℕ
      → List (List ℕ)
      → (ℕ → List ℕ → List ℕ)
      → Overlays
      → M Oram (Overlays × List (List ℕ))
  unfolding take_one
  take_each [] new_leaves paths update overlays o = (ok (overlays, []), o)
  take_each (logical_id ∷ ids) [] paths update overlays o = (ok (overlays, []), o)
  take_each (logical_id ∷ ids) (new_leaf ∷ new_leaves) [] update overlays o = (ok (overlays, []), o)
  take_each (logical_id ∷ ids) (new_leaf ∷ new_leaves) (path ∷ paths) update overlays o =
      (do
        overlays' ←
            on_stash S R MS PS (remove_target_from_overlays S o.params path logical_id overlays)
        output ← take_one logical_id new_leaf update
        rest ← take_each ids new_leaves paths update overlays'
        pure (rest.0, output ∷ rest.1))
        o

  -- `update` stands for the caller's closure, without a state of its own.
  pub access_batch : List ℕ → (ℕ → List ℕ → List ℕ) → M Oram (List (List ℕ))
  unfolding check take_each
  access_batch [] update o = (ok [], o)
  access_batch (id ∷ ids) update o =
      let logical_ids = id ∷ ids in
      if any_out_of_range o.params logical_ids
      then (err invalid_input, o)
      else let old_leaves = scan_pos_map_lookup_batch S o.pos_map logical_ids in
        let (new_leaves, next_rng) = random_leaves R o.params (length logical_ids) o.rng in
        let access_leaves = batch_access_leaves S logical_ids old_leaves new_leaves in
        let paths = map (path_nodes o.params) access_leaves in
        (do
          overlays ← fetch paths
          done ← take_each logical_ids new_leaves paths update overlays
          (λ o'. (
            ok tt,
            record o' {
              pos_map = scan_pos_map_update_batch S o'.pos_map logical_ids new_leaves;
              rng = next_rng;
            },
          ))
          write_back paths (done.0)
          check S R MS PS
          pure (done.1))
          o

  pub read_batch : List ℕ → M Oram (List (List ℕ))
  read_batch logical_ids = access_batch logical_ids (λ id payload. payload)

  evict_each : List (List ℕ) → OramParams → M (Evicting S) (Unit {0})
  evict_each [] p = pure tt
  evict_each (path ∷ paths) p = do evict_path_in_overlays S p path; evict_each paths p

  complete_each : List ℕ → M Oram (Unit {0})
  complete_each [] = pure tt
  complete_each (leaf ∷ leaves) = do
    completed ← on_schedule S R MS PS complete_one_eviction
    complete_each leaves

  -- The evictions of the paths, on the stash of the controller and the overlays.
  evict_all : List (List ℕ) → Overlays → M Oram Overlays
  unfolding evict_each
  evict_all paths overlays o =
      let (r, e) = evict_each paths o.params (record { stash = o.stash; overlays = overlays }) in
      continue (λ u. pure (e.overlays)) (r, record o { stash = e.stash })

  -- The part of `drain_evictions` with something to drain.
  drain : ℕ → M Oram ℕ
  unfolding check evict_all complete_each
  drain to_drain o =
      let start = o.schedule.completed_evictions in
      let leaves = map (eviction_leaf_at o.params) (range_from start to_drain) in
      let paths = map (path_nodes o.params) leaves in
      (do
        overlays ← fetch paths
        overlays' ← evict_all paths overlays
        write_back paths overlays'
        complete_each leaves
        check S R MS PS
        pure to_drain)
        o

  pub drain_evictions : ℕ → M Oram ℕ
  unfolding drain
  drain_evictions budget = (do
    o ← get
    pending ← lift (pending_evictions o.schedule)
    (if min budget pending == 0 then pure 0 else drain (min budget pending)))
