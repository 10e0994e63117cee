-- ===== src/Evict/Load.antt =====
-- src/circuit.rs: the payloads of the candidates of an eviction, and the check that the stash will
-- have room.
use oram.Base.{ℕ, zero, suc, ◌+◌, ◌-◌, not, ◌||◌, List, [], ◌∷◌, length, replicate, set, ltb, ◌==◌}
use oram.Outcome.{
  Result, ok, err, invalid_input, panicked, stash_overflow, index, expect, ◌>>=◌, ◌>>◌, reject_if,
}
use oram.Ct.{Subtle, and}
use oram.Ct
use oram.Params.{OramParams}
use oram.Block.{OramBlock}
use oram.Meta.{CircuitMetaBucket}
use oram.Payload
use oram.Stash.{occupied_stash_len}
use oram.Overlay.{Overlay}
use oram.Evict.{CircuitEvictionCandidate, CircuitEvictionPlan, eviction_candidate_count}

module _ (S : Subtle) where
  open S use {Choice, unwrap_u8}

  -- `take(n)` of the payloads, each copied from its slot of the stash.
  load_stash : ℕ → List OramBlock → List (List ℕ) → Result (List (List ℕ))
  load_stash zero stash payloads = ok payloads
  load_stash (suc n) stash [] = ok []
  load_stash (suc n) [] (payload ∷ payloads) = err panicked
  load_stash (suc n) (block ∷ stash) (payload ∷ payloads) = do
    reject_if (not (length payload == length block.payload)) panicked
    rest ← load_stash n stash payloads
    ok (block.payload ∷ rest)

  load_bucket : List ℕ → List (List ℕ) → List (List ℕ) → Result (List (List ℕ))
  load_bucket [] slots payloads = ok payloads
  load_bucket (candidate_idx ∷ indices) [] payloads = err panicked
  load_bucket (candidate_idx ∷ indices) (slot ∷ slots) payloads = do
    old ← index payloads candidate_idx
    reject_if (not (length old == length slot)) panicked
    load_bucket indices slots (set payloads candidate_idx slot)

  load_path : OramParams → List ℕ → List (List ℕ) → Overlay → List (List ℕ) → Result (List (List ℕ))
  unfolding load_bucket
  load_path p [] indices payload_overlay payloads = ok payloads
  load_path p (page_idx ∷ path) [] payload_overlay payloads = err panicked
  load_path p (page_idx ∷ path) (row ∷ indices) payload_overlay payloads = do
    payload_buf ← expect (payload_overlay page_idx)
    bucket ← Payload.decode payload_buf p.bucket_size p.block_size
    payloads' ← load_bucket row bucket.slots payloads
    load_path p path indices payload_overlay payloads'

  pub load_eviction_payloads_from_overlay :
      OramParams
      → List OramBlock
      → List ℕ
      → List CircuitMetaBucket
      → CircuitEvictionPlan S
      → Overlay
      → Result (List (List ℕ))
  unfolding load_stash load_path
  load_eviction_payloads_from_overlay p stash path path_meta plan payload_overlay = do
    reject_if
        (not (length path == length path_meta)
          || (not (length path == length plan.path_candidate_indices)
              || not (length plan.candidates == eviction_candidate_count S p)))
        invalid_input
    payloads ←
        load_stash p.stash_capacity stash
          (replicate (length plan.candidates) (replicate p.block_size 0))
    load_path p path plan.path_candidate_indices payload_overlay payloads

  count_selected : ℕ → List (CircuitEvictionCandidate S) → List Choice → Result ℕ
  count_selected zero candidates selected = ok 0
  count_selected (suc n) [] selected = err panicked
  count_selected (suc n) (c ∷ candidates) [] = err panicked
  count_selected (suc n) (c ∷ candidates) (s ∷ selected) = do
    rest ← count_selected n candidates selected
    ok (unwrap_u8 (and S c.active s) + rest)

  count_unselected : CircuitEvictionPlan S → List ℕ → Result ℕ
  count_unselected plan [] = ok 0
  count_unselected plan (candidate_idx ∷ indices) = do
    candidate ← index plan.candidates candidate_idx
    selected ← index plan.selected candidate_idx
    rest ← count_unselected plan indices
    ok (unwrap_u8 (and S candidate.active (Ct.not S selected)) + rest)

  count_path : CircuitEvictionPlan S → List (List ℕ) → Result ℕ
  unfolding count_unselected
  count_path plan [] = ok 0
  count_path plan (row ∷ indices) = do
    here ← count_unselected plan row
    rest ← count_path plan indices
    ok (here + rest)

  -- The stash is of the fixed size here, so neither difference goes below 0.
  pub ensure_eviction_stash_capacity :
      OramParams → List OramBlock → CircuitEvictionPlan S → Result (Unit {0})
  unfolding count_selected count_path
  ensure_eviction_stash_capacity p stash plan = do
    selected_stash ← count_selected p.stash_capacity plan.candidates plan.selected
    unselected_path ← count_path plan plan.path_candidate_indices
    let occupied = occupied_stash_len S stash
    let free_after_selected_stash = p.stash_capacity - occupied + selected_stash
    reject_if (ltb free_after_selected_stash unselected_path)
        (stash_overflow (occupied - selected_stash + unselected_path) p.stash_capacity)
