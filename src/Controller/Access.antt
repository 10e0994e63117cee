-- ===== src/Controller/Access.antt =====
-- src/circuit.rs: an access reads and updates one value of the memory that the controller stands for.
use oram.Base.{
  ℕ, ◌+◌, ◌-◌, ◌*◌, ◌^◌, ◌%◌, ◌≡◌, ◌<◌, refl, sym, ap, ◌∙◌, true, false, ◌||◌, List, map, length,
  length-replicate, replicate, All-map, arith, if◌then◌else◌, update, get_or, leb, set, bit_and,
  ◌==◌,
}
use native.Mathlib.Nat.{mod-lt, mod-eq_of_lt}
use oram.Base.Bits.{bit_and-mask, two_pow-pos}
use oram.Base.Bytes.{IsBytes}
use oram.Outcome.{Result, ok}
use oram.Ct.{Subtle, choice_from_bool}
use oram.Ct
use oram.Ct.Laws.{holds, holds-not, is_one_lem}
use oram.Params.{OramParams, path_nodes, leaf_bits}
use oram.Params.Geometry.{IsTree}
use oram.Schedule.{CircuitEvictionSchedule, record_access}
use oram.Schedule.Debt.{IsConsistent, owed, record_access_lem}
use oram.Block.{OramBlock}
use oram.Block
use oram.PosMap.Laws.{scan_pos_map_lookup_lem, scan_pos_map_update_lem}
use oram.Stash.Laws.{has_free, check_stash_lem}
use oram.Select.Laws.{has_id}
use oram.Select.Path.{remove_path, find_path}
use oram.Store.{overwrite, PathPageStore}
use oram.Memory.{IsMemory}
use oram.Memory.Take.{stashed, IsTaken, take_lem}
use oram.Memory.Relabel.{relabel_lem}
use oram.Controller.{
  Rng, CircuitOram, random_leaf, scan_stash, check, remap, take_from_stash, access,
}
use oram.Controller.Invariant.{IsOram}
use oram.Controller.Scan.{relabel, scan_stash_lem, relabel_stash_lem}
use oram.Controller.Target.{read_and_remove_target_path_lem}

-- In a valid tree, a leaf that is drawn is below the number of leaves and fits 32 bits.
pub random_leaf-lt :
    (R : Rng) (p : OramParams) (rng : R.State)
    → IsTree p
    → ((random_leaf R p rng).0 < p.leaves) × ((random_leaf R p rng).0 < 2 ^ 32)
unfolding random_leaf
random_leaf-lt R p rng t =
    let k : ℕ = leaf_bits p in
    let word : ℕ = (R.next_u64 rng).0 in
    let masked : bit_and word (p.leaves - 1) ≡ word % 2 ^ k =
      ap (λ n. bit_and word (n - 1)) t.leaves_pow ∙ bit_and-mask k word in
    let small : word % 2 ^ k < 2 ^ k = mod-lt word (two_pow-pos k) in
    let fits : bit_and word (p.leaves - 1) < 2 ^ 32 = omega (arith, t.leaves_pow, t.leaves_fit) in
    rw (mod-eq_of_lt fits) (omega (arith, t.leaves_pow), fits)

-- The closure of an access: it changes the bytes of a payload, not their number.
abbrev pub KeepsBlocks : ℕ → (List ℕ → List ℕ) → Type 0
KeepsBlocks n f = (x : List ℕ) → length x ≡ n → IsBytes x → (length (f x) ≡ n) × IsBytes (f x)

-- One more access leaves the counters in range.
abbrev pub HasRoom : CircuitEvictionSchedule → Type 0
HasRoom s =
    ((s.issued_accesses + 1) * s.evictions_per_access < 2 ^ 64) × (s.issued_accesses + 1 < 2 ^ 64)

leb-no : (n id : ℕ) → id < n → leb n id ≡ false
leb-no n id h = ground arith

module _ (S : Subtle) (R : Rng) (MS PS : PathPageStore) where
  abbrev Oram : Type 0
  Oram = CircuitOram R MS PS

  -- An access that answers with the value of `id`, and leaves `value` for it.
  pub record Accessed (o : Oram) (values : ℕ → List ℕ) (id : ℕ) (value : List ℕ)
      (r : Result (List ℕ) × Oram) : Type 0 where
    pub after : Oram
    pub tree_after : ℕ → List OramBlock
    pub result_is : r ≡ (ok (values id), after)
    pub is_oram : IsOram after tree_after (update values id value)
    pub params_kept : after.params ≡ o.params
    pub owed_is : owed after.schedule ≡ owed o.schedule + o.schedule.evictions_per_access

  -- From a stash that holds the block.
  module _ (o : Oram) (tree : ℕ → List OramBlock) (values : ℕ → List ℕ) (t : IsTree o.params)
      (m : IsMemory o.params o.pos_map o.stash tree values) (c : IsConsistent o.schedule) (id : ℕ)
      (lt : id < o.params.logical_blocks) (here : has_id id o.stash ≡ true)
      (room : HasRoom o.schedule) (f : List ℕ → List ℕ)
      (keeps : KeepsBlocks o.params.block_size f) where
    abbrev p : OramParams
    p = o.params

    abbrev value' : List ℕ
    value' = f (values id)

    abbrev drawn : ℕ × R.State
    drawn = random_leaf R p o.rng

    value'_ok : (length value' ≡ p.block_size) × IsBytes value'
    value'_ok = keeps (values id) (m.values_sized id lt) (m.values_bytes id lt)

    abbrev done : Oram
    done = record o {
      rng = drawn.1;
      pos_map = set o.pos_map id drawn.0;
      stash = map (relabel id value' drawn.0) o.stash;
      schedule = (record_access o.schedule).1;
    }

    done-IsMemory : IsMemory p done.pos_map done.stash tree (update values id value')
    done-IsMemory =
        relabel_lem p o.pos_map o.stash tree values m id lt here drawn.0
          (random_leaf-lt R p o.rng t).0 (random_leaf-lt R p o.rng t).1 value' value'_ok.0
          value'_ok.1

    remap_is : remap S R MS PS id f (values id) o ≡ (ok (values id), done)
    unfolding remap check
    remap_is =
        let recorded = record_access_lem o.schedule c room.0 room.1 in
        rw
          (relabel_stash_lem S id value' drawn.0 o.stash
            (All-map (λ b u. u.sized ∙ sym value'_ok.0) o.stash m.stash_blocks))
          (rw (scan_pos_map_update_lem S o.pos_map id drawn.0)
            (rw (recorded.0) (rw (check_stash_lem S p done.stash done-IsMemory.stash_sized) refl)))

    abbrev scan : List ℕ × S.Choice
    scan = scan_stash S id o.stash (replicate p.block_size 0) (choice_from_bool S false)

    scan_is :
        (scan.0 ≡ (if has_id id o.stash then values id else replicate p.block_size 0))
        × (holds S scan.1 ≡ (holds S (choice_from_bool S false) || has_id id o.stash))
    scan_is =
        scan_stash_lem S id (values id) o.stash (replicate p.block_size 0)
          (choice_from_bool S false)
          (All-map (λ b u. u.sized ∙ sym (m.values_sized id lt)) o.stash m.stash_blocks)
          (All-map (λ b u e. (u id e).payload_is) o.stash m.stash_right)
          (length-replicate p.block_size 0 ∙ sym (m.values_sized id lt))

    found_is : S.unwrap_u8 (Ct.not S scan.1) == 1 ≡ false
    found_is = ground (arith, is_one_lem S (Ct.not S scan.1), holds-not S scan.1, scan_is.1, here)

    take_from_stash_lem : take_from_stash S R MS PS id f o ≡ (ok (values id), done)
    unfolding take_from_stash
    take_from_stash_lem =
        let output_is : scan.0 ≡ values id = ground (arith, scan_is.0, here) in
        rw found_is (rw output_is remap_is)

  -- The block is on its path, or in the stash: the access answers with its value.
  module _ (o : Oram) (tree : ℕ → List OramBlock) (values : ℕ → List ℕ) (v : IsOram o tree values)
      (id : ℕ) (lt : id < o.params.logical_blocks) (free : has_free o.stash ≡ true)
      (room : HasRoom o.schedule) (f : List ℕ → List ℕ)
      (keeps : KeepsBlocks o.params.block_size f) where
    abbrev leaf : ℕ
    leaf = get_or o.pos_map id 0

    taken : IsTaken o.params o.pos_map o.stash tree values v.memory v.is_tree id lt
    taken = take_lem o.params o.pos_map o.stash tree values v.memory v.is_tree id lt free

    -- The controller between the path and the stash.
    abbrev mid : Oram
    mid =
        let d = read_and_remove_target_path_lem S R MS PS o tree values v leaf id free in
        record o {
          meta_store = d.meta_after;
          payload_store = d.payload_after;
          stash =
              stashed
                (find_path id (Block.dummy o.params.block_size)
                  (map tree (path_nodes o.params leaf)))
                o.stash;
        }

    -- On a controller that satisfies the invariant for an assignment of values to ids, an access
    -- to an id in range, with a free stash slot, room in the counters and a closure that keeps the
    -- block size and the byte range, succeeds and returns the value of the id; the controller it
    -- leaves satisfies the invariant for the values with the closure's result at that id, has the
    -- same parameters, and owes `evictions_per_access` more evictions.
    pub access_lem : Accessed o values id (f (values id)) (access S R MS PS id f o)
    unfolding access
    access_lem =
        let d = read_and_remove_target_path_lem S R MS PS o tree values v leaf id free in
        let tree' : ℕ → List OramBlock =
          overwrite tree (path_nodes o.params leaf)
            (remove_path o.params.block_size id (map tree (path_nodes o.params leaf))) in
        let recorded = record_access_lem o.schedule v.schedule_ok room.0 room.1 in
        record {
          after =
              done mid tree' values v.is_tree taken.memory v.schedule_ok id lt taken.in_stash room f
                keeps;
          tree_after = tree';
          result_is = rw (leb-no o.params.logical_blocks id lt) (
              rw (scan_pos_map_lookup_lem S o.pos_map id) (
                rw (d.result_is) (
                  take_from_stash_lem mid tree' values v.is_tree taken.memory v.schedule_ok id lt
                    taken.in_stash room f keeps)));
          is_oram = record {
            is_tree = v.is_tree;
            block_size_pos = v.block_size_pos;
            meta_stored = d.meta_stored;
            payload_stored = d.payload_stored;
            memory =
                done-IsMemory mid tree' values v.is_tree taken.memory v.schedule_ok id lt
                  taken.in_stash room f keeps;
            schedule_ok = recorded.1;
          };
          params_kept = refl;
          owed_is = recorded.2;
        }
