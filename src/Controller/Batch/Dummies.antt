-- ===== src/Controller/Batch/Dummies.antt =====
-- src/circuit.rs: a batch of dummy accesses leaves the memory of the controller as it was.
use native.Mathlib.Nat.{add-zero}
use oram.Base.{
  false, ℕ, zero, suc, ◌+◌, ◌*◌, ◌^◌, ◌≡◌, ◌<◌, refl, sym, ap, ◌∙◌, List, [], ◌∷◌, map, length, All,
  arith, ◌==◌,
}
use oram.Outcome.{Result, ok}
use oram.Ct.{Subtle}
use oram.Params.{OramParams, bucket_count, path_nodes}
use oram.Params.Geometry.{IsTree, path_nodes-lt}
use oram.Schedule.{CircuitEvictionSchedule}
use oram.Schedule.Debt.{IsConsistent, issued, record_access-issued}
use oram.Block.{OramBlock}
use oram.Meta.{circuit_meta_page_bytes}
use oram.Payload.{circuit_payload_page_bytes}
use oram.Stash.Laws.{check_stash_lem}
use oram.Select.Pages.{meta_page, payload_page, length-meta_page, length-payload_page}
use oram.Store.{Page, AllFit, InRange, PathPageStore}
use oram.Store.Batches.{
  read_paths-Answered, write_paths-Answered, overwrite_paths-same, AllFit-same,
}
use oram.Overlay.{Overlays}
use oram.Overlay.Laws.{overlay_path_pages_lem, collect_overlay_paths-Covers}
use oram.Controller.{Rng, CircuitOram, check}
use oram.Controller.Batch.{random_leaves, fetch, write_back, record_accesses, dummy_access_batch}
use oram.Controller.Invariant.{IsOram}
use oram.Controller.Path.{IsMetaStore, IsPayloadStore}

paths_in :
    (p : OramParams)
    → IsTree p
    → (leaves : List ℕ) → All (InRange (bucket_count p)) (map (path_nodes p) leaves)
paths_in p t [] = tt
paths_in p t (leaf ∷ leaves) = (path_nodes-lt leaf t, paths_in p t leaves)

not_empty : (n : ℕ) → suc n == 0 ≡ false
not_empty n = ground arith

module _ (S : Subtle) (R : Rng) (MS PS : PathPageStore) where
  abbrev Oram : Type 0
  Oram = CircuitOram R MS PS

  record_accesses_lem :
      (n : ℕ) (o : Oram)
      → o.schedule.issued_accesses + n < 2 ^ 64
      → record_accesses S R MS PS n o ≡ (ok tt, record o { schedule = issued n o.schedule })
  unfolding record_accesses
  record_accesses_lem zero o h =
      ap (λ k. (ok tt, record o { schedule = record (o.schedule) { issued_accesses = k } }))
        (sym (add-zero o.schedule.issued_accesses))
  record_accesses_lem (suc n) o h = rw (record_access-issued o.schedule (omega arith)) (
      record_accesses_lem n (record o { schedule = issued 1 o.schedule }) (omega arith)
      ∙ ap (λ k. (ok tt, record o { schedule = record (o.schedule) { issued_accesses = k } }))
          (omega arith))

  module _ (o : Oram) (tree : ℕ → List OramBlock) (values : ℕ → List ℕ) (v : IsOram o tree values)
      (leaves : List ℕ) where
    abbrev p : OramParams
    p = o.params

    abbrev paths : List (List ℕ)
    paths = map (path_nodes p) leaves

    abbrev metas : ℕ → Page
    metas n = meta_page (tree n)

    abbrev payloads : ℕ → Page
    payloads n = payload_page (tree n)

    metas_fit :
        AllFit (circuit_meta_page_bytes p.bucket_size) paths (map (map metas) paths)
        × All (All (λ i. length (metas i) ≡ circuit_meta_page_bytes p.bucket_size)) paths
    metas_fit =
        AllFit-same _ (bucket_count p) metas paths
          (λ i h. length-meta_page (tree i) (v.memory.buckets i h)) (paths_in p v.is_tree leaves)

    payloads_fit :
        AllFit
          (circuit_payload_page_bytes p.bucket_size p.block_size)
          paths
          (map (map payloads) paths)
        × All
            (All (λ i. length (payloads i) ≡ circuit_payload_page_bytes p.bucket_size p.block_size))
            paths
    payloads_fit =
        AllFit-same _ (bucket_count p) payloads paths
          (λ i h. length-payload_page (tree i) (v.memory.buckets i h)) (paths_in p v.is_tree leaves)

    -- The paths were fetched and written back as they were.
    record Rewritten : Type 0 where
      overlays : Overlays
      meta_between : MS.State
      payload_between : PS.State
      meta_after : MS.State
      payload_after : PS.State
      fetched :
          fetch S R MS PS paths o
          ≡ (ok overlays, record o { meta_store = meta_between; payload_store = payload_between })
      written :
          write_back S R MS PS paths overlays
            (record o { meta_store = meta_between; payload_store = payload_between })
          ≡ (ok tt, record o { meta_store = meta_after; payload_store = payload_after })
      meta_stored : IsMetaStore MS p tree meta_after
      payload_stored : IsPayloadStore PS p tree payload_after

    rewritten : Rewritten
    unfolding fetch write_back
    rewritten =
        let range = paths_in p v.is_tree leaves in
        let m = read_paths-Answered MS o.meta_store _ _ metas v.meta_stored paths range in
        let q = read_paths-Answered PS o.payload_store _ _ payloads v.payload_stored paths range in
        let mo =
          overlay_path_pages_lem metas (circuit_meta_page_bytes p.bucket_size) paths metas_fit.1 in
        let qo =
          overlay_path_pages_lem payloads (circuit_payload_page_bytes p.bucket_size p.block_size)
            paths payloads_fit.1 in
        let m' =
          write_paths-Answered MS m.after _ _ metas m.stored paths range (map (map metas) paths)
            metas_fit.0 in
        let q' =
          write_paths-Answered PS q.after _ _ payloads q.stored paths range
            (map (map payloads) paths) payloads_fit.0 in
        record {
          overlays = record { meta = mo.overlay; payload = qo.overlay };
          meta_between = m.after;
          payload_between = q.after;
          meta_after = m'.after;
          payload_after = q'.after;
          fetched =
              rw (m.result_is) (rw (q.result_is) (rw (mo.result_is) (rw (qo.result_is) refl)));
          written = rw (collect_overlay_paths-Covers metas paths mo.overlay mo.covers) (
              rw (collect_overlay_paths-Covers payloads paths qo.overlay qo.covers)
                (rw (m'.result_is) (rw (q'.result_is) refl)));
          meta_stored = rw (overwrite_paths-same metas paths) at m'.stored;
          payload_stored = rw (overwrite_paths-same payloads paths) at q'.stored;
        }

  -- A batch that succeeds, changes no block of the tree or the stash, and adds to the debt.
  pub record DummiesDone (o : Oram) (tree : ℕ → List OramBlock) (values : ℕ → List ℕ) (n : ℕ)
      (r : Result (Unit {0}) × Oram) : Type 0 where
    pub after : Oram
    pub result_is : r ≡ (ok tt, after)
    pub is_oram : IsOram after tree values
    pub stash_kept : after.stash ≡ o.stash
    pub pos_map_kept : after.pos_map ≡ o.pos_map
    pub schedule_is : after.schedule ≡ issued n o.schedule

  with_rng :
      (o : Oram) (rng : R.State) {tree : ℕ → List OramBlock} {values : ℕ → List ℕ}
      → IsOram o tree values
      → IsOram (record o { rng = rng }) tree values
  with_rng o rng v = record {
    is_tree = v.is_tree;
    block_size_pos = v.block_size_pos;
    meta_stored = v.meta_stored;
    payload_stored = v.payload_stored;
    memory = v.memory;
    schedule_ok = v.schedule_ok;
  }

  issued-IsConsistent :
      (n : ℕ) (s : CircuitEvictionSchedule)
      → IsConsistent s
      → (s.issued_accesses + n) * s.evictions_per_access < 2 ^ 64
      → s.issued_accesses + n < 2 ^ 64
      → IsConsistent (issued n s)
  issued-IsConsistent n s c h h' = ground arith

  -- On a controller that satisfies the invariant and whose counters have room for `n` more
  -- accesses, a batch of `n` dummy accesses succeeds; the controller it leaves satisfies the
  -- invariant for the same tree and values, has the same stash and position map, and its schedule
  -- differs only in `n` more issued accesses.
  pub dummy_access_batch_lem :
      (o : Oram) (tree : ℕ → List OramBlock) (values : ℕ → List ℕ) (n : ℕ)
      → IsOram o tree values
      → (o.schedule.issued_accesses + n) * o.schedule.evictions_per_access < 2 ^ 64
      → o.schedule.issued_accesses + n < 2 ^ 64
      → DummiesDone o tree values n (dummy_access_batch S R MS PS n o)
  unfolding dummy_access_batch check
  dummy_access_batch_lem o tree values zero v h h' = record {
    after = o;
    result_is = refl;
    is_oram = v;
    stash_kept = refl;
    pos_map_kept = refl;
    schedule_is =
        ap (λ k. record (o.schedule) { issued_accesses = k })
          (sym (add-zero o.schedule.issued_accesses));
  }
  dummy_access_batch_lem o tree values (suc n) v h h' =
      let (leaves, rng') = random_leaves R o.params (suc n) o.rng in
      let d = rewritten (record o { rng = rng' }) tree values (with_rng o rng' v) leaves in
      let after : Oram = record o {
        rng = rng';
        meta_store = d.meta_after;
        payload_store = d.payload_after;
        schedule = issued (suc n) o.schedule;
      } in
      record {
        after = after;
        result_is =
            rw (not_empty n, d.fetched)
              (rw (d.written) (
                rw
                  (record_accesses_lem (suc n)
                    (record o {
                      rng = rng';
                      meta_store = d.meta_after;
                      payload_store = d.payload_after;
                    })
                    h')
                  (rw (check_stash_lem S o.params o.stash v.memory.stash_sized) refl)));
        is_oram = record {
          is_tree = v.is_tree;
          block_size_pos = v.block_size_pos;
          meta_stored = d.meta_stored;
          payload_stored = d.payload_stored;
          memory = v.memory;
          schedule_ok = issued-IsConsistent (suc n) o.schedule v.schedule_ok h h';
        };
        stash_kept = refl;
        pos_map_kept = refl;
        schedule_is = refl;
      }
