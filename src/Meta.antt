-- ===== src/Meta.antt =====
-- src/circuit.rs, `CircuitMetaSlot` and `CircuitMetaBucket`: the metadata half of a bucket.
pub mod Laws
pub mod Codec
use oram.Base.{
  ℕ, zero, suc, ◌+◌, ◌*◌, ◌^◌, Bool, true, false, not, List, [], ◌∷◌, ◌++◌, length, get_or, take,
  drop, replicate, bit, ◌==◌, if◌then◌else◌,
}
use oram.Base.Bytes.{to_le_bytes, from_le_bytes, slice, splice, chunks_exact}
use oram.Outcome.{Result, ok, err, invalid_input, ◌>>=◌, ◌>>◌, reject_if}
use oram.Ct.{Subtle, choice_from_bool, eq_u64, and, cmov_u8, cmov_u32, cmov_u64}
use oram.Block.{u64_max, u32_max, empty, occupied, decode_occupied}

pub record CircuitMetaSlot : Type 0 where
  pub occupied : Bool
  pub logical_id : ℕ
  pub leaf : ℕ

abbrev pub slot_len : ℕ
slot_len = 1 + 8 + 4

unfoldable pub dummy : CircuitMetaSlot
dummy = record { occupied = false; logical_id = u64_max; leaf = u32_max }

pub real : ℕ → ℕ → CircuitMetaSlot
real logical_id leaf = record { occupied = true; logical_id = logical_id; leaf = leaf }

pub encode_slot : CircuitMetaSlot → List ℕ → Result (List ℕ)
encode_slot s out = do
  reject_if (not (length out == slot_len)) invalid_input
  ok (
      (if s.occupied then occupied else empty)
      ∷ (to_le_bytes 8 s.logical_id ++ (to_le_bytes 4 s.leaf ++ [])))

pub decode_slot : List ℕ → Result CircuitMetaSlot
decode_slot input = do
  reject_if (not (length input == slot_len)) invalid_input
  is_occupied ← decode_occupied (get_or input 0 0)
  ok (record {
    occupied = is_occupied;
    logical_id = from_le_bytes (slice 1 8 input);
    leaf = from_le_bytes (slice 9 4 input);
  })

module _ (S : Subtle) where
  open S use {Choice}

  pub logical_id_choice : CircuitMetaSlot → ℕ → Choice
  logical_id_choice s logical_id =
      and S (choice_from_bool S s.occupied) (eq_u64 S s.logical_id logical_id)

  pub clear_if : CircuitMetaSlot → Choice → CircuitMetaSlot
  clear_if s choice =
      let occupied = cmov_u8 S (bit s.occupied) empty choice in
      record {
        occupied = not (occupied == 0);
        logical_id = cmov_u64 S s.logical_id u64_max choice;
        leaf = cmov_u32 S s.leaf u32_max choice;
      }

  pub cmov_from : CircuitMetaSlot → CircuitMetaSlot → Choice → CircuitMetaSlot
  cmov_from s other choice =
      let occupied = cmov_u8 S (bit s.occupied) (bit other.occupied) choice in
      record {
        occupied = not (occupied == 0);
        logical_id = cmov_u64 S s.logical_id other.logical_id choice;
        leaf = cmov_u32 S s.leaf other.leaf choice;
      }

pub record CircuitMetaBucket : Type 0 where
  pub slots : List CircuitMetaSlot

unfoldable pub circuit_meta_page_bytes : ℕ → ℕ
circuit_meta_page_bytes bucket_size = bucket_size * slot_len

pub dummy_bucket : ℕ → CircuitMetaBucket
dummy_bucket bucket_size = record { slots = replicate bucket_size dummy }

-- The loop over the slots, from slot `i` on.
encode_slots : ℕ → List CircuitMetaSlot → List ℕ → Result (List ℕ)
encode_slots i [] out = ok out
encode_slots i (slot ∷ slots) out = do
  let start = i * slot_len
  bytes ← encode_slot slot (slice start slot_len out)
  encode_slots (suc i) slots (splice start bytes out)

pub encode_into : CircuitMetaBucket → ℕ → List ℕ → Result (List ℕ)
unfolding encode_slots
encode_into b bucket_size out = do
  reject_if (not (length b.slots == bucket_size)) invalid_input
  reject_if (not (length out == circuit_meta_page_bytes bucket_size)) invalid_input
  encode_slots 0 b.slots out

pub encode : CircuitMetaBucket → ℕ → Result (List ℕ)
encode b bucket_size = encode_into b bucket_size (replicate (circuit_meta_page_bytes bucket_size) 0)

decode_slots : List (List ℕ) → Result (List CircuitMetaSlot)
decode_slots [] = ok []
decode_slots (chunk ∷ chunks) = do
  slot ← decode_slot chunk
  slots ← decode_slots chunks
  ok (slot ∷ slots)

pub decode : List ℕ → ℕ → Result CircuitMetaBucket
unfolding decode_slots
decode input bucket_size = do
  reject_if (not (length input == circuit_meta_page_bytes bucket_size)) invalid_input
  slots ← decode_slots (chunks_exact slot_len input)
  ok (record { slots = slots })
