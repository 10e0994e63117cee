-- ===== src/Tests/Plans.antt =====
-- A plan for the path of leaf 1 in a small tree: the block of the stash goes to the leaf.
use oram.Base.{refl, List, [], ◌∷◌, arith}
use oram.Block.{OramBlock}
use oram.Base.Words.{trailing_zeros}
use oram.Params.{height, leaf_bits}
use oram.Meta.{CircuitMetaBucket}
use oram.Meta
use oram.Evict.{eviction_candidate_count, plan_eviction_placements}
use oram.Evict.Plan.{Planned, plan_eviction_placements_lem}
use oram.Tests.Values.{small-IsTree}
use oram.Tests.Fixtures.{bool_subtle, small, block_of}

abbrev stash : List OramBlock
stash = block_of 0 7 ∷ []

abbrev path_meta : List CircuitMetaBucket
path_meta = record { slots = Meta.dummy ∷ [] } ∷ record { slots = Meta.dummy ∷ [] } ∷ []

plan_eviction_placements_lem_example :
    Planned bool_subtle small stash
      (0 ∷ 2 ∷ [])
      path_meta
      (plan_eviction_placements bool_subtle small stash (0 ∷ 2 ∷ []) path_meta)
unfolding eviction_candidate_count height leaf_bits trailing_zeros
plan_eviction_placements_lem_example =
    plan_eviction_placements_lem bool_subtle small stash (0 ∷ 2 ∷ []) path_meta small-IsTree refl
      refl refl (refl, (refl, tt)) (omega arith)
