-- ===== src/Block.antt =====
-- src/block.rs: one block with its payload, selected and cleared without branches, and its bytes.
pub mod Laws
pub mod Codec
pub mod Shape
use oram.Base.{
  ℕ, ◌+◌, ◌-◌, ◌^◌, bit_and, Bool, true, false, not, List, [], ◌∷◌, ◌++◌, map, length, get_or,
  replicate, drop, bit, ◌==◌, if◌then◌else◌,
}
use oram.Base.Bytes.{to_le_bytes, from_le_bytes, slice}
use oram.Outcome.{Result, ok, err, invalid_input, ◌>>=◌, ◌>>◌, reject_if}
use oram.Ct.{Subtle, choice_from_bool, eq_u64, and, mask8, cmov_u8, cmov_u32, cmov_u64, cmov_bytes}

pub record OramBlock : Type 0 where
  pub occupied : Bool
  pub logical_id : ℕ
  pub leaf : ℕ
  pub payload : List ℕ

abbrev pub u64_max : ℕ
u64_max = 2 ^ 64 - 1

abbrev pub u32_max : ℕ
u32_max = 2 ^ 32 - 1

abbrev pub empty : ℕ
empty = 0

abbrev pub occupied : ℕ
occupied = 1

unfoldable pub dummy : ℕ → OramBlock
dummy block_size = record {
  occupied = false;
  logical_id = u64_max;
  leaf = u32_max;
  payload = replicate block_size 0;
}

pub real : ℕ → ℕ → List ℕ → ℕ → Result OramBlock
real logical_id leaf payload block_size = do
  reject_if (not (length payload == block_size)) invalid_input
  ok (record { occupied = true; logical_id = logical_id; leaf = leaf; payload = payload })

module _ (S : Subtle) where
  open S use {Choice}

  pub logical_id_choice : OramBlock → ℕ → Choice
  logical_id_choice b logical_id =
      and S (choice_from_bool S b.occupied) (eq_u64 S b.logical_id logical_id)

  pub cmov_from : OramBlock → OramBlock → Choice → OramBlock
  cmov_from b other choice =
      let occupied = cmov_u8 S (bit b.occupied) (bit other.occupied) choice in
      record {
        occupied = not (occupied == 0);
        logical_id = cmov_u64 S b.logical_id other.logical_id choice;
        leaf = cmov_u32 S b.leaf other.leaf choice;
        payload = cmov_bytes S b.payload other.payload choice;
      }

  pub clear_payload_volatile_if : List ℕ → Choice → List ℕ
  clear_payload_volatile_if payload choice =
      let keep_mask = 255 - mask8 S choice in map (λ byte. bit_and byte keep_mask) payload

  pub clear_if : OramBlock → Choice → OramBlock
  clear_if b choice =
      let occupied = cmov_u8 S (bit b.occupied) empty choice in
      record {
        occupied = not (occupied == 0);
        logical_id = cmov_u64 S b.logical_id u64_max choice;
        leaf = cmov_u32 S b.leaf u32_max choice;
        payload = clear_payload_volatile_if b.payload choice;
      }

unfoldable pub serialized_len : ℕ → ℕ
serialized_len block_size = 1 + 8 + 4 + block_size

-- `out` is the destination; the result is what it then holds.
unfoldable pub encode_into : OramBlock → List ℕ → ℕ → Result (List ℕ)
encode_into b out block_size = do
  reject_if (not (length out == serialized_len block_size)) invalid_input
  reject_if (not (length b.payload == block_size)) invalid_input
  ok (
      (if b.occupied then occupied else empty)
      ∷ (to_le_bytes 8 b.logical_id ++ (to_le_bytes 4 b.leaf ++ b.payload)))

-- `match input[0]`
abbrev pub decode_occupied : ℕ → Result Bool
decode_occupied byte =
    if byte == empty then ok false else if byte == occupied then ok true else err invalid_input

pub decode_from : List ℕ → ℕ → Result OramBlock
decode_from input block_size = do
  reject_if (not (length input == serialized_len block_size)) invalid_input
  is_occupied ← decode_occupied (get_or input 0 0)
  ok (record {
    occupied = is_occupied;
    logical_id = from_le_bytes (slice 1 8 input);
    leaf = from_le_bytes (slice 9 4 input);
    payload = drop 13 input;
  })
