-- ===== src/Stash.antt =====
-- src/circuit.rs: the stash of `CircuitOram`, a fixed number of slots that are always all scanned.
-- The methods take the stash itself, of the controller's fields, and the sizes.
pub mod Laws
use oram.Base.{
  ℕ, zero, suc, ◌+◌, ◌-◌, Bool, true, false, not, List, [], ◌∷◌, ◌++◌, length, replicate, bit, ltb,
  ◌==◌, if◌then◌else◌,
}
use oram.Outcome.{Result, ok, err, invalid_input, stash_overflow}
use oram.Outcome.Stateful.{M}
use oram.Ct.{Subtle, choice_from_bool, and, or}
use oram.Ct
use oram.Params.{OramParams}
use oram.Block.{OramBlock, cmov_from}
use oram.Block
use oram.Meta.{CircuitMetaSlot}

module _ (S : Subtle) where
  open S use {Choice, unwrap_u8}

  -- The loop that both insertions make: the first free slot takes the block.
  pub insert_loop : OramBlock → Choice → Choice → List OramBlock → List OramBlock × Choice
  insert_loop block insert_choice inserted [] = ([], inserted)
  insert_loop block insert_choice inserted (slot ∷ slots) =
      let can_insert =
        and S (and S insert_choice (Ct.not S inserted))
          (Ct.not S (choice_from_bool S slot.occupied)) in
      let (slots', inserted') = insert_loop block insert_choice (or S inserted can_insert) slots in
      (cmov_from S slot block can_insert ∷ slots', inserted')

  overflow_unless : OramParams → List OramBlock × Choice → Result (Unit {0}) × List OramBlock
  overflow_unless p (stash, inserted) =
      if unwrap_u8 (Ct.not S inserted) == 1
      then (err (stash_overflow (p.stash_capacity + 1) p.stash_capacity), stash)
      else (ok tt, stash)

  pub insert_into_stash : OramParams → OramBlock → M (List OramBlock) (Unit {0})
  unfolding overflow_unless
  insert_into_stash p block stash =
      let block_occupied = choice_from_bool S block.occupied in
      overflow_unless p (insert_loop block block_occupied (Ct.not S block_occupied) stash)

  pub insert_candidate_into_stash :
      OramParams → CircuitMetaSlot → List ℕ → Choice → M (List OramBlock) (Unit {0})
  unfolding overflow_unless
  insert_candidate_into_stash p meta payload insert_choice stash =
      let block : OramBlock = record {
        occupied = true;
        logical_id = meta.logical_id;
        leaf = meta.leaf;
        payload = payload;
      } in
      if not (length payload == p.block_size)
      then (err invalid_input, stash)
      else overflow_unless p (insert_loop block insert_choice (Ct.not S insert_choice) stash)

  pub occupied_stash_len : List OramBlock → ℕ
  occupied_stash_len [] = 0
  occupied_stash_len (block ∷ stash) =
      unwrap_u8 (choice_from_bool S block.occupied) + occupied_stash_len stash

  pub check_stash : OramParams → List OramBlock → Result (Unit {0})
  check_stash p stash =
      let occupied = occupied_stash_len stash in
      if ltb p.stash_capacity occupied
      then err (stash_overflow occupied p.stash_capacity)
      else if not (length stash == p.stash_capacity)
      then err invalid_input
      else ok tt

-- `resize_with` to the capacity; a stash that is too long is left alone.
pub pad_stash : OramParams → List OramBlock → List OramBlock
pad_stash p stash =
    if ltb p.stash_capacity (length stash)
    then stash
    else stash ++ replicate (p.stash_capacity - length stash) (Block.dummy p.block_size)
