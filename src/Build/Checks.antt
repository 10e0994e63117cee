-- ===== src/Build/Checks.antt =====
-- src/circuit.rs: what a controller state is known to be once it has been checked on opening.
use oram.Base.{ℕ, ◌≡◌, ◌<◌, false, ◌&&◌, List, [], ◌∷◌, length, All, leb, arith}
use oram.Outcome.{Result, ok, err}
use oram.Params.{OramParams}
use oram.Params
use oram.Schedule.{CircuitEvictionSchedule, validate_for_params}
use oram.Block.{OramBlock}
use oram.Build.{check_leaves, check_blocks, both, validate_circuit_state}

-- A block of the size of the tree, and, if it is real, with a leaf of the tree.
pub record IsChecked (p : OramParams) (b : OramBlock) : Type 0 where
  pub payload_sized : length b.payload ≡ p.block_size
  pub leaf_in_range : b.occupied && leb p.leaves b.leaf ≡ false

check_leaves_ok :
    (p : OramParams) (pos_map : List ℕ)
    → check_leaves p pos_map ≡ ok tt
    → All (λ leaf. leaf < p.leaves) pos_map
unfolding check_leaves
check_leaves_ok p [] h = tt
check_leaves_ok p (leaf ∷ pos_map) h = (ground arith, check_leaves_ok p pos_map (ground arith))

check_blocks_ok :
    (p : OramParams) (stash : List OramBlock)
    → check_blocks p stash ≡ ok tt
    → All (IsChecked p) stash
unfolding check_blocks
check_blocks_ok p [] h = tt
check_blocks_ok p (b ∷ stash) h = (
  record { payload_sized = ground arith; leaf_in_range = ground arith },
  check_blocks_ok p stash (ground arith),
)

both_ok : (r s : Result (Unit {0})) → both r s ≡ ok tt → (r ≡ ok tt) × (s ≡ ok tt)
both_ok (ok u) s h = ground arith
both_ok (err e) s h = absurd (ground arith)

validate_bits :
    (s : CircuitEvictionSchedule) (p : OramParams)
    → validate_for_params s p ≡ ok tt
    → s.leaf_bits ≡ Params.leaf_bits p
unfolding validate_for_params
validate_bits s p h = ground arith

-- When the check of a controller state passes, the position map has one entry per logical block,
-- all of them leaves of the tree, every stash payload has the block size, every real stash block
-- has a leaf of the tree, and the schedule has the width of the tree.
pub validate_circuit_state_ok :
    (p : OramParams) (pos_map : List ℕ) (stash : List OramBlock) (s : CircuitEvictionSchedule)
    → validate_circuit_state p pos_map stash s ≡ ok tt
    → (length pos_map ≡ p.logical_blocks)
      × All (λ leaf. leaf < p.leaves) pos_map
      × All (IsChecked p) stash
      × (s.leaf_bits ≡ Params.leaf_bits p)
unfolding validate_circuit_state
validate_circuit_state_ok p pos_map stash s h =
    let sized : length pos_map ≡ p.logical_blocks = ground arith in
    let rest : both (check_leaves p pos_map) (both (check_blocks p stash) (validate_for_params s p))
        ≡ ok tt =
      ground arith in
    let (leaves_ok, later) = both_ok (check_leaves p pos_map) _ rest in
    let (blocks_ok, schedule_ok) = both_ok (check_blocks p stash) _ later in
    (
      sized,
      check_leaves_ok p pos_map leaves_ok,
      check_blocks_ok p stash blocks_ok,
      validate_bits s p schedule_ok,
    )
