-- ===== src/Build/Image.antt =====
-- src/circuit.rs: the builder writes the planned buckets to the stores, and opens the controller.
use oram.Base.{
  ℕ, zero, suc, ◌*◌, Bool, true, false, not, List, [], ◌∷◌, ◌++◌, length, replicate, ltb, ◌==◌,
  if◌then◌else◌,
}
use oram.Base.Bytes.{splice}
use oram.Outcome.{Result, ok, err, invalid_input, stash_overflow, reject_if}
use oram.Outcome.Stateful.{M, continue, pure, lift, ◌>>=◌, ◌>>◌}
use oram.Ct.{Subtle}
use oram.Params.{OramParams, bucket_count}
use oram.Schedule
use oram.Block.{OramBlock}
use oram.Block
use oram.Meta.{CircuitMetaSlot, CircuitMetaBucket, circuit_meta_page_bytes, dummy_bucket}
use oram.Meta
use oram.Payload.{circuit_payload_page_bytes}
use oram.Stash.{check_stash, pad_stash}
use oram.Store.{Page, PageStore, BatchPageStore}
use oram.Store.Blanket.{path_store}
use oram.Controller.{Rng, CircuitOram, random_leaf}
use oram.Build.{
  TrustedBlockSource, vec_block_source, validate_circuit_stores, validate_block_source,
  place_initial_meta, Placed,
}

-- What the placement of one block did, recorded.
place_result :
    (R : Rng) → OramParams → ℕ → ℕ → Placed R → Bool × List CircuitMetaBucket → Result (Placed R)
place_result R p logical_id leaf s (true, meta_buckets) =
    ok (record s { meta_buckets = meta_buckets; pos_map = s.pos_map ++ (leaf ∷ []) })
place_result R p logical_id leaf s (false, meta_buckets) =
    let ids = s.initial_stash_ids ++ ((logical_id, leaf) ∷ []) in
    if ltb p.stash_capacity (length ids)
    then err (stash_overflow (length ids) p.stash_capacity)
    else ok (record s { pos_map = s.pos_map ++ (leaf ∷ []); initial_stash_ids = ids })

-- The first loop of the build, over `n` ids from `logical_id` on.
pub place_blocks : (R : Rng) → OramParams → ℕ → ℕ → M (Placed R) (Unit {0})
unfolding place_result
place_blocks R p logical_id zero s = (ok tt, s)
place_blocks R p logical_id (suc n) s =
    let (leaf, rng') = random_leaf R p s.rng in
    (do
      placed ← lift (place_initial_meta p s.meta_buckets logical_id leaf)
      (λ s'.
          let r = place_result R p logical_id leaf s' placed in
          continue (λ s'' t. (ok tt, s'')) (r, s'))
      place_blocks R p (suc logical_id) n)
      (record s { rng = rng' })

write_metas_from :
    (P : PageStore) → OramParams → ℕ → List CircuitMetaBucket → Page → M P.State (Unit {0})
write_metas_from P p node_idx [] encoded = pure tt
write_metas_from P p node_idx (bucket ∷ buckets) encoded = do
  encoded' ← lift (Meta.encode_into bucket p.bucket_size encoded)
  P.write_page node_idx encoded'
  write_metas_from P p (suc node_idx) buckets encoded'

pub write_initial_metadata :
    (P : PageStore) → OramParams → List CircuitMetaBucket → M P.State (Unit {0})
unfolding write_metas_from
write_initial_metadata P p meta_buckets = do
  lift (reject_if (not (length meta_buckets == bucket_count p)) invalid_input)
  write_metas_from P p 0 meta_buckets (replicate (circuit_meta_page_bytes p.bucket_size) 0)

pub read_source_block : (Source : TrustedBlockSource) → OramParams → ℕ → M Source.State (List ℕ)
read_source_block Source p logical_id = do
  payload ← Source.read_block logical_id
  lift (reject_if (not (length payload == p.block_size)) invalid_input)
  pure payload

-- The payloads of the occupied slots of a bucket, in the page.
fill_page :
    (Source : TrustedBlockSource)
    → OramParams
    → ℕ
    → List CircuitMetaSlot
    → Page
    → M Source.State Page
fill_page Source p slot_idx [] encoded = pure encoded
fill_page Source p slot_idx (meta ∷ slots) encoded =
    if meta.occupied
    then (do
      payload ← read_source_block Source p meta.logical_id
      fill_page Source p (suc slot_idx) slots (splice (slot_idx * p.block_size) payload encoded))
    else fill_page Source p (suc slot_idx) slots encoded

module _ (P : PageStore) (Source : TrustedBlockSource) where
  abbrev Both : Type 0
  Both = P.State × Source.State

  abbrev on_store : {A : Type 0} → M P.State A → M Both A
  on_store m (s, t) = let (r, s') = m s in (r, (s', t))

  abbrev on_source : {A : Type 0} → M Source.State A → M Both A
  on_source m (s, t) = let (r, t') = m t in (r, (s, t'))

  write_payloads_from : OramParams → ℕ → List CircuitMetaBucket → M Both (Unit {0})
  unfolding fill_page
  write_payloads_from p node_idx [] = pure tt
  write_payloads_from p node_idx (bucket ∷ buckets) = do
    encoded ← on_source (
        fill_page Source p 0 bucket.slots
          (replicate (circuit_payload_page_bytes p.bucket_size p.block_size) 0))
    on_store (P.write_page node_idx encoded)
    write_payloads_from p (suc node_idx) buckets

  pub write_initial_payloads : OramParams → List CircuitMetaBucket → M Both (Unit {0})
  unfolding write_payloads_from
  write_initial_payloads p meta_buckets = do
    lift (reject_if (not (length meta_buckets == bucket_count p)) invalid_input)
    write_payloads_from p 0 meta_buckets

read_stash :
    (Source : TrustedBlockSource) → OramParams → List (ℕ × ℕ) → M Source.State (List OramBlock)
read_stash Source p [] = pure []
read_stash Source p ((logical_id, leaf) ∷ ids) = do
  payload ← read_source_block Source p logical_id
  block ← lift (Block.real logical_id leaf payload p.block_size)
  stash ← read_stash Source p ids
  pure (block ∷ stash)

-- A failed build drops the stores, so only its error is kept. `rng` is what `seed` gives.
module _ (S : Subtle) (R : Rng) (MS PS : BatchPageStore) (Source : TrustedBlockSource) where
  abbrev Oram : Type 0
  Oram = CircuitOram R (path_store MS) (path_store PS)

  abbrev then_build : {St A B : Type 0} → Result A × St → (A → St → Result B) → Result B
  then_build (ok a, s) f = f a s
  then_build (err e, s) f = err e

  open_built : OramParams → Placed R → MS.base.State → PS.base.State → List OramBlock → Result Oram
  open_built p placed meta_store payload_store stash =
      let oram : Oram = record {
        params = p;
        meta_store = meta_store;
        payload_store = payload_store;
        pos_map = placed.pos_map;
        stash = pad_stash p stash;
        rng = placed.rng;
        schedule = Schedule.new p;
      } in
      then_build (check_stash S p oram.stash, tt) (λ u v. ok oram)

  pub build_trusted_from_source :
      OramParams → MS.base.State → PS.base.State → Source.State → R.State → Result Oram
  unfolding open_built read_stash
  build_trusted_from_source p meta_store payload_store source rng =
      let start : Placed R = record {
        rng = rng;
        pos_map = [];
        meta_buckets = replicate (bucket_count p) (dummy_bucket p.bucket_size);
        initial_stash_ids = [];
      } in
      then_build
        (validate_circuit_stores (path_store MS) (path_store PS) p meta_store payload_store, tt)
        (λ u v.
          then_build (validate_block_source Source p source, tt)
            (λ u v. then_build (place_blocks R p 0 p.logical_blocks start) (λ u placed.
              then_build (write_initial_metadata (MS.base) p placed.meta_buckets meta_store)
                (λ u meta_store'.
                  then_build
                    (write_initial_payloads (PS.base) Source p placed.meta_buckets
                      (payload_store, source))
                    (λ u stores.
                      then_build (read_stash Source p placed.initial_stash_ids (stores.1))
                        (λ stash t. open_built p placed meta_store' (stores.0) stash))))))

-- The public builder, over blocks in memory.
pub build_trusted :
    (S : Subtle) (R : Rng) (MS PS : BatchPageStore)
    → OramParams
    → MS.base.State
    → PS.base.State
    → List (List ℕ)
    → R.State
    → Result (CircuitOram R (path_store MS) (path_store PS))
build_trusted S R MS PS p meta_store payload_store blocks rng =
    build_trusted_from_source S R MS PS vec_block_source p meta_store payload_store
      (record { blocks = blocks; block_size = p.block_size }) rng
