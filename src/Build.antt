-- ===== src/Build.antt =====
-- src/circuit.rs: the trusted build of the tree from a source of blocks, and the checks made when a
-- controller is opened.
pub mod Image
pub mod Checks
use oram.Base.{
  ℕ, zero, suc, ◌+◌, ◌*◌, ◌&&◌, Bool, true, false, not, List, [], ◌∷◌, Option, none, some, map,
  length, replicate, get_elem?, set, leb, ltb, ◌==◌, if◌then◌else◌,
}
use mathlib.Core.List.{reverse}
use oram.Outcome.{Result, ok, err, invalid_input, stash_overflow, reject_if, expect, index}
use oram.Outcome.Stateful.{M, continue, pure, lift, ◌>>=◌, ◌>>◌}
use oram.Ct.{Subtle}
use oram.Params.{OramParams, bucket_count, path_nodes}
use oram.Schedule.{CircuitEvictionSchedule, validate_for_params}
use oram.Schedule as Schedule
use oram.Block.{OramBlock}
use oram.Block as Block
use oram.Meta.{CircuitMetaSlot, CircuitMetaBucket, circuit_meta_page_bytes, dummy_bucket}
use oram.Meta as Meta
use oram.Payload.{circuit_payload_page_bytes}
use oram.Stash.{check_stash, pad_stash}
use oram.Store.{Page, View, PageStore, PathPageStore}
use oram.Store.Blanket.{path_store}
use oram.Controller.{Rng, CircuitOram, random_leaf}

-- `trait TrustedBlockSource`.
pub record TrustedBlockSource : Type 1 where
  pub State : Type 0
  pub logical_blocks : State → ℕ
  pub block_size : State → ℕ
  pub read_block : ℕ → M State (List ℕ)

pub record VecBlockSource : Type 0 where
  pub blocks : List (List ℕ)
  pub block_size : ℕ

-- `blocks.get(logical_id).cloned().ok_or_else(..)`
abbrev pub block_or : Option (List ℕ) → Result (List ℕ)
block_or none = err invalid_input
block_or (some block) = ok block

abbrev pub vec_block_source : TrustedBlockSource
vec_block_source = record {
  State = VecBlockSource;
  logical_blocks = λ s. length s.blocks;
  block_size = λ s. s.block_size;
  read_block = λ logical_id s. (block_or (get_elem? s.blocks logical_id), s);
}

pub validate_circuit_stores :
    (MS PS : PathPageStore) → OramParams → MS.State → PS.State → Result (Unit {0})
validate_circuit_stores MS PS p meta_store payload_store =
    if not (MS.view.page_count meta_store == bucket_count p)
    then err invalid_input
    else if not (MS.view.page_size meta_store == circuit_meta_page_bytes p.bucket_size)
    then err invalid_input
    else if not (PS.view.page_count payload_store == bucket_count p)
    then err invalid_input
    else reject_if
        (not (
          PS.view.page_size payload_store == circuit_payload_page_bytes p.bucket_size p.block_size))
        invalid_input

pub validate_block_source :
    (Source : TrustedBlockSource) → OramParams → Source.State → Result (Unit {0})
validate_block_source Source p source =
    if not (Source.logical_blocks source == p.logical_blocks)
    then err invalid_input
    else reject_if (not (Source.block_size source == p.block_size)) invalid_input

unfoldable pub check_leaves : OramParams → List ℕ → Result (Unit {0})
check_leaves p [] = ok tt
check_leaves p (leaf ∷ pos_map) =
    if leb p.leaves leaf then err invalid_input else check_leaves p pos_map

unfoldable pub check_blocks : OramParams → List OramBlock → Result (Unit {0})
check_blocks p [] = ok tt
check_blocks p (block ∷ stash) =
    if not (length block.payload == p.block_size)
    then err invalid_input
    else if block.occupied && leb p.leaves block.leaf
    then err invalid_input
    else check_blocks p stash

abbrev pub both : Result (Unit {0}) → Result (Unit {0}) → Result (Unit {0})
both (ok u) r = r
both (err e) r = err e

unfoldable pub validate_circuit_state :
    OramParams → List ℕ → List OramBlock → CircuitEvictionSchedule → Result (Unit {0})
unfolding check_leaves check_blocks
validate_circuit_state p pos_map stash schedule =
    if not (length pos_map == p.logical_blocks)
    then err invalid_input
    else both (check_leaves p pos_map)
        (both (check_blocks p stash) (validate_for_params schedule p))

-- The first slot of a bucket that is not occupied takes the new one.
pub place_in_bucket : CircuitMetaSlot → List CircuitMetaSlot → Option (List CircuitMetaSlot)
place_in_bucket slot [] = none
place_in_bucket slot (s ∷ slots) =
    let later = place_in_bucket slot slots in
    if not s.occupied
    then some (slot ∷ slots)
    else elim later [ none ↦ none | some slots' ↦ some (s ∷ slots') ]

-- The loop over the path, from the leaf to the root.
place_on_path :
    CircuitMetaSlot → List ℕ → List CircuitMetaBucket → Result (Bool × List CircuitMetaBucket)
place_on_path slot [] meta_buckets = ok (false, meta_buckets)
place_on_path slot (node_idx ∷ path) meta_buckets =
    let later = place_on_path slot path meta_buckets in
    elim (get_elem? meta_buckets node_idx) [
      | none ↦ expect none
      | some bucket ↦ elim (place_in_bucket slot bucket.slots) [
        | none ↦ later
        | some slots ↦ ok (true, set meta_buckets node_idx (record { slots = slots }))
      ]
    ]

-- A bucket of the builder has `bucket_size` slots, so the loop over the slots is one over them all.
pub place_initial_meta :
    OramParams → List CircuitMetaBucket → ℕ → ℕ → Result (Bool × List CircuitMetaBucket)
unfolding place_on_path
place_initial_meta p meta_buckets logical_id leaf =
    place_on_path (Meta.real logical_id leaf) (reverse (path_nodes p leaf)) meta_buckets

-- What the first loop of the build makes.
pub record Placed (R : Rng) : Type 0 where
  pub rng : R.State
  pub pos_map : List ℕ
  pub meta_buckets : List CircuitMetaBucket
  pub initial_stash_ids : List (ℕ × ℕ)
