-- ===== src/Controller.antt =====
-- src/circuit.rs, `CircuitOram`: the controller, over a random number generator and two path
-- stores. A method is a function of the whole controller, and returns what it leaves also when it
-- fails.
pub mod Scan
pub mod Invariant
pub mod Path
pub mod Target
pub mod Access
pub mod Batch
pub mod Dummy
use oram.Base.{
  ℕ, zero, suc, ◌+◌, ◌-◌, ◌^◌, ◌%◌, ◌<◌, bit_and, Bool, true, false, List, [], ◌∷◌, map, replicate,
  length, leb, ◌==◌, if◌then◌else◌,
}
use oram.Outcome.{Result, ok, err, invalid_input, block_not_found, reject_if}
use oram.Outcome.Stateful.{M, continue, pure, lift, ◌>>=◌, ◌>>◌}
use oram.Ct.{Subtle, choice_from_bool, or, cmov_bytes, cmov_u32}
use oram.Ct
use oram.Params.{OramParams, path_nodes}
use oram.Schedule.{CircuitEvictionSchedule, record_access}
use oram.Block.{OramBlock, logical_id_choice}
use oram.Block
use oram.Stash.{insert_into_stash, check_stash}
use oram.Select.{PathScan, remove_from_pages}
use oram.PosMap.{scan_pos_map_lookup, scan_pos_map_update}
use oram.Store.{Page, PathPageStore}

-- The crate `rand_chacha`: a generator whose words are `u64`.
pub record Rng : Type 1 where
  pub State : Type 0
  pub next_u64 : State → ℕ × State
  pub next_u64-lt : (s : State) → (next_u64 s).0 < 2 ^ 64

pub random_leaf : (R : Rng) → OramParams → R.State → ℕ × R.State
random_leaf R p rng =
    let (word, rng') = R.next_u64 rng in (bit_and word (p.leaves - 1) % 2 ^ 32, rng')

-- The loop of `access` over the stash: the payload found, and whether there was one.
pub scan_stash : (S : Subtle) → ℕ → List OramBlock → List ℕ → S.Choice → List ℕ × S.Choice
scan_stash S logical_id [] output found = (output, found)
scan_stash S logical_id (block ∷ stash) output found =
    let matched = logical_id_choice S block logical_id in
    scan_stash S logical_id stash (cmov_bytes S output block.payload matched) (or S found matched)

-- The loop that gives the block its new payload and leaf.
pub relabel_stash : Subtle → ℕ → List ℕ → ℕ → List OramBlock → List OramBlock
relabel_stash S logical_id new_payload new_leaf [] = []
relabel_stash S logical_id new_payload new_leaf (block ∷ stash) =
    let matched = logical_id_choice S block logical_id in
    record block {
      payload = cmov_bytes S block.payload new_payload matched;
      leaf = cmov_u32 S block.leaf new_leaf matched;
    }
    ∷ relabel_stash S logical_id new_payload new_leaf stash

pub record CircuitOram (R : Rng) (MS PS : PathPageStore) : Type 0 where
  pub params : OramParams
  pub meta_store : MS.State
  pub payload_store : PS.State
  pub pos_map : List ℕ
  pub stash : List OramBlock
  pub rng : R.State
  pub schedule : CircuitEvictionSchedule

module _ (S : Subtle) (R : Rng) (MS PS : PathPageStore) where
  abbrev pub Oram : Type 0
  Oram = CircuitOram R MS PS

  -- A call on one field of the controller.
  abbrev pub on_meta : {A : Type 0} → M MS.State A → M Oram A
  on_meta m o = let (r, s) = m o.meta_store in (r, record o { meta_store = s })

  abbrev pub on_payload : {A : Type 0} → M PS.State A → M Oram A
  on_payload m o = let (r, s) = m o.payload_store in (r, record o { payload_store = s })

  abbrev pub on_stash : {A : Type 0} → M (List OramBlock) A → M Oram A
  on_stash m o = let (r, s) = m o.stash in (r, record o { stash = s })

  abbrev pub on_schedule : {A : Type 0} → M CircuitEvictionSchedule A → M Oram A
  on_schedule m o = let (r, s) = m o.schedule in (r, record o { schedule = s })

  pub read_and_remove_target_path : ℕ → ℕ → M Oram (Unit {0})
  read_and_remove_target_path leaf logical_id o =
      let p = o.params in
      let path = path_nodes p leaf in
      (do
        meta_pages ← on_meta (MS.read_path_pages path)
        payload_pages ← on_payload (PS.read_path_pages path)
        scan ← lift (
            remove_from_pages S p logical_id meta_pages payload_pages (Block.dummy p.block_size)
              (choice_from_bool S false))
        on_stash (insert_into_stash S p scan.selected)
        on_meta (MS.write_path_pages path scan.meta_pages)
        on_payload (PS.write_path_pages path scan.payload_pages))
        o

  pub read_and_rewrite_path : ℕ → M Oram (Unit {0})
  read_and_rewrite_path leaf o =
      let path = path_nodes o.params leaf in
      (do
        meta_pages ← on_meta (MS.read_path_pages path)
        payload_pages ← on_payload (PS.read_path_pages path)
        on_meta (MS.write_path_pages path meta_pages)
        on_payload (PS.write_path_pages path payload_pages))
        o

  check : M Oram (Unit {0})
  check o = (check_stash S o.params o.stash, o)

  pub dummy_access : M Oram (Unit {0})
  unfolding check
  dummy_access o =
      let (leaf, rng') = random_leaf R o.params o.rng in
      (do read_and_rewrite_path leaf; on_schedule record_access; check) (record o { rng = rng' })

  -- The part of `access` after the path has been read: `output` is the payload found.
  remap : ℕ → (List ℕ → List ℕ) → List ℕ → M Oram (List ℕ)
  unfolding check
  remap logical_id update output o =
      let (new_leaf, rng') = random_leaf R o.params o.rng in
      (do on_schedule record_access; check; pure output)
        (record o {
          rng = rng';
          pos_map = scan_pos_map_update S o.pos_map logical_id new_leaf;
          stash = relabel_stash S logical_id (update output) new_leaf o.stash;
        })

  take_from_stash : ℕ → (List ℕ → List ℕ) → M Oram (List ℕ)
  unfolding remap
  take_from_stash logical_id update o =
      let (output, found) =
        scan_stash S logical_id o.stash (replicate o.params.block_size 0)
          (choice_from_bool S false) in
      if S.unwrap_u8 (Ct.not S found) == 1
      then (err (block_not_found logical_id), o)
      else remap logical_id update output o

  -- `update` stands for the caller's closure on the payload.
  pub access : ℕ → (List ℕ → List ℕ) → M Oram (List ℕ)
  unfolding take_from_stash
  access logical_id update o =
      if leb o.params.logical_blocks logical_id
      then (err invalid_input, o)
      else let old_leaf = scan_pos_map_lookup S o.pos_map logical_id in
        (do read_and_remove_target_path old_leaf logical_id; take_from_stash logical_id update) o

  pub read : ℕ → M Oram (List ℕ)
  read logical_id = access logical_id (λ payload. payload)
