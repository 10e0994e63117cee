-- ===== src/Controller/Invariant.antt =====
-- src/circuit.rs: what a `CircuitOram` keeps between its operations: the two stores hold the halves
-- of the buckets of a tree, and the tree, the stash and the position map are a memory.
use oram.Base.{ℕ, ◌<◌, List}
use oram.Params.Geometry.{IsTree}
use oram.Schedule.Debt.{IsConsistent}
use oram.Block.{OramBlock}
use oram.Store.{PathPageStore}
use oram.Memory.{IsMemory}
use oram.Controller.{Rng, CircuitOram}
use oram.Controller.Path.{IsMetaStore, IsPayloadStore}

pub record IsOram {R : Rng} {MS PS : PathPageStore} (o : CircuitOram R MS PS)
    (tree : ℕ → List OramBlock) (values : ℕ → List ℕ) : Type 0 where
  pub is_tree : IsTree o.params
  pub block_size_pos : 0 < o.params.block_size
  pub meta_stored : IsMetaStore MS o.params tree o.meta_store
  pub payload_stored : IsPayloadStore PS o.params tree o.payload_store
  pub memory : IsMemory o.params o.pos_map o.stash tree values
  pub schedule_ok : IsConsistent o.schedule
