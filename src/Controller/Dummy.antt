-- ===== src/Controller/Dummy.antt =====
-- src/circuit.rs: a dummy access leaves the memory of the controller as it was.
use oram.Base.{ℕ, ◌+◌, ◌≡◌, refl, List}
use oram.Outcome.{Result, ok}
use oram.Ct.{Subtle}
use oram.Params.{path_nodes}
use oram.Schedule.{record_access}
use oram.Schedule.Debt.{owed, record_access_lem}
use oram.Block.{OramBlock}
use oram.Stash.Laws.{check_stash_lem}
use oram.Store.{PathPageStore}
use oram.Store.Overwrite.{overwrite-same}
use oram.Controller.{Rng, CircuitOram, random_leaf, check, dummy_access}
use oram.Controller.Invariant.{IsOram}
use oram.Controller.Target.{read_and_rewrite_path_lem}
use oram.Controller.Access.{HasRoom}

module _ (S : Subtle) (R : Rng) (MS PS : PathPageStore) (o : CircuitOram R MS PS)
    (tree : ℕ → List OramBlock) (values : ℕ → List ℕ) where
  -- An access that answers, changes no block of the tree or the stash, and adds to the debt.
  pub record DummyDone (r : Result (Unit {0}) × CircuitOram R MS PS) : Type 0 where
    pub after : CircuitOram R MS PS
    pub result_is : r ≡ (ok tt, after)
    pub is_oram : IsOram after tree values
    pub stash_kept : after.stash ≡ o.stash
    pub pos_map_kept : after.pos_map ≡ o.pos_map
    pub owed_is : owed after.schedule ≡ owed o.schedule + o.schedule.evictions_per_access

  -- On a controller that satisfies the invariant and whose counters have room, a dummy access
  -- succeeds; the controller it leaves satisfies the invariant for the same tree and values, has
  -- the same stash and position map, and owes `evictions_per_access` more evictions.
  pub dummy_access_lem :
      IsOram o tree values → HasRoom o.schedule → DummyDone (dummy_access S R MS PS o)
  unfolding dummy_access check
  dummy_access_lem v room =
      let (leaf, rng') = random_leaf R o.params o.rng in
      let d =
        read_and_rewrite_path_lem S R MS PS (record o { rng = rng' }) tree values
          (record {
            is_tree = v.is_tree;
            block_size_pos = v.block_size_pos;
            meta_stored = v.meta_stored;
            payload_stored = v.payload_stored;
            memory = v.memory;
            schedule_ok = v.schedule_ok;
          })
          leaf in
      let same = overwrite-same tree (path_nodes o.params leaf) in
      let recorded = record_access_lem o.schedule v.schedule_ok room.0 room.1 in
      record {
        after = record o {
          meta_store = d.meta_after;
          payload_store = d.payload_after;
          rng = rng';
          schedule = (record_access o.schedule).1;
        };
        result_is =
            rw (d.result_is)
              (rw (recorded.0) (rw (check_stash_lem S o.params o.stash v.memory.stash_sized) refl));
        is_oram = record {
          is_tree = v.is_tree;
          block_size_pos = v.block_size_pos;
          meta_stored = rw same at d.meta_stored;
          payload_stored = rw same at d.payload_stored;
          memory = v.memory;
          schedule_ok = recorded.1;
        };
        stash_kept = refl;
        pos_map_kept = refl;
        owed_is = recorded.2;
      }
