-- ===== src/Payload.antt =====
-- src/circuit.rs, `CircuitPayloadBucket`: the payload half of a bucket.
pub mod Codec
use oram.Base.{
  ℕ, zero, suc, ◌+◌, ◌*◌, Bool, not, List, [], ◌∷◌, ◌++◌, length, replicate, take, drop, ◌==◌,
}
use oram.Base.Bytes.{splice, chunks_exact}
use oram.Outcome.{Result, ok, invalid_input, ◌>>=◌, ◌>>◌, reject_if}

pub record CircuitPayloadBucket : Type 0 where
  pub slots : List (List ℕ)

unfoldable pub circuit_payload_page_bytes : ℕ → ℕ → ℕ
circuit_payload_page_bytes bucket_size block_size = bucket_size * block_size

pub dummy : ℕ → ℕ → CircuitPayloadBucket
dummy bucket_size block_size = record { slots = replicate bucket_size (replicate block_size 0) }

-- The loop over the slots, from slot `i` on.
encode_slots : ℕ → ℕ → List (List ℕ) → List ℕ → Result (List ℕ)
encode_slots block_size i [] out = ok out
encode_slots block_size i (slot ∷ slots) out = do
  reject_if (not (length slot == block_size)) invalid_input
  encode_slots block_size (suc i) slots (splice (i * block_size) slot out)

pub encode : CircuitPayloadBucket → ℕ → ℕ → Result (List ℕ)
unfolding encode_slots
encode b bucket_size block_size = do
  reject_if (not (length b.slots == bucket_size)) invalid_input
  encode_slots block_size 0 b.slots
      (replicate (circuit_payload_page_bytes bucket_size block_size) 0)

pub decode : List ℕ → ℕ → ℕ → Result CircuitPayloadBucket
decode input bucket_size block_size = do
  reject_if (not (length input == circuit_payload_page_bytes bucket_size block_size)) invalid_input
  ok (record { slots = chunks_exact block_size input })
