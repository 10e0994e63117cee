-- ===== src/Meta/Codec.antt =====
-- src/circuit.rs: the bytes of a metadata page.
use oram.Base.{
  ℕ, suc, ◌*◌, ◌^◌, ◌<◌, ◌≡◌, refl, ap, ◌∙◌, List, [], ◌∷◌, ◌++◌, length, take, drop, map, All,
  length-append, length-map, length-drop, length-take, length-replicate, replicate, eq→==, arith,
}
use mathlib.Core.List.{append_assoc}
use oram.Base.Bytes.{slice-append, splice-append, slice, concat, chunks_exact-concat, length-concat}
use oram.Outcome.{ok}
use oram.Block.Codec.{occupied_byte, layout, length-layout, layout_words}
use oram.Meta.{
  CircuitMetaSlot, CircuitMetaBucket, slot_len, circuit_meta_page_bytes, encode_slot, decode_slot,
  encode_slots, decode_slots, encode_into, encode, decode,
}

-- The 13 bytes of a slot.
abbrev pub slot_bytes : CircuitMetaSlot → List ℕ
slot_bytes s = layout (occupied_byte s.occupied) s.logical_id s.leaf []

pub length-slot_bytes : (s : CircuitMetaSlot) → length (slot_bytes s) ≡ slot_len
length-slot_bytes s = length-layout (occupied_byte s.occupied) s.logical_id s.leaf []

-- The words of a slot are in range.
abbrev pub IsWord : CircuitMetaSlot → Type 0
IsWord s = (s.logical_id < 2 ^ 64) × (s.leaf < 2 ^ 32)

encode_slot_lem :
    (s : CircuitMetaSlot) (out : List ℕ)
    → length out ≡ slot_len
    → encode_slot s out ≡ ok (slot_bytes s)
unfolding encode_slot
encode_slot_lem s out e = ground arith

decode_slot_lem : (s : CircuitMetaSlot) → IsWord s → decode_slot (slot_bytes s) ≡ ok s
unfolding decode_slot
decode_slot_lem s v =
    let o : ℕ = occupied_byte s.occupied in
    ground
      (arith, length-layout o s.logical_id s.leaf [], layout_words o s.logical_id s.leaf [] v.0 v.1)

-- After the slots before `i`, the loop writes the others over what is left of the page.
encode_slots_lem :
    (slots : List CircuitMetaSlot) (i : ℕ) (done todo : List ℕ)
    → length done ≡ i * slot_len
    → length todo ≡ length slots * slot_len
    → encode_slots i slots (done ++ todo) ≡ ok (done ++ concat (map slot_bytes slots))
unfolding encode_slots concat
encode_slots_lem [] i done [] hd ht = refl
encode_slots_lem [] i done (x ∷ xs) hd ht = absurd (omega arith)
encode_slots_lem (s ∷ slots) i done todo hd ht =
    let part : List ℕ = slot_bytes s in
    let size : length part ≡ slot_len = length-slot_bytes s in
    let wrote : encode_slot s (slice (i * slot_len) slot_len (done ++ todo)) ≡ ok part =
      ap (encode_slot s) (slice-append (i * slot_len) done todo hd slot_len)
      ∙ encode_slot_lem s (take slot_len todo) (omega (arith, length-take slot_len todo)) in
    rw wrote (
      rw (splice-append (i * slot_len) done todo hd part) (
        rw
          (encode_slots_lem slots (suc i) (done ++ part) (drop (length part) todo)
            (omega (arith, length-append done part))
            (omega (arith, length-drop (length part) todo)))
          (ap ok (append_assoc done part (concat (map slot_bytes slots))))))

-- A bucket of the right size is encoded, as its slots one after the other.
pub encode_lem :
    (b : CircuitMetaBucket) (bucket_size : ℕ)
    → length b.slots ≡ bucket_size
    → encode b bucket_size ≡ ok (concat (map slot_bytes b.slots))
unfolding encode encode_into circuit_meta_page_bytes
encode_lem b bucket_size e =
    let zero_byte : ℕ = 0 in
    let zeros : List ℕ = replicate (bucket_size * slot_len) 0 in
    ground (
      arith,
      length-replicate (bucket_size * slot_len) zero_byte,
      encode_slots_lem b.slots 0 [] zeros refl
          (omega (arith, length-replicate (bucket_size * slot_len) zero_byte)),
    )

slots_sizes : (slots : List CircuitMetaSlot) → All (λ p. length p ≡ slot_len) (map slot_bytes slots)
slots_sizes [] = tt
slots_sizes (s ∷ slots) = (length-slot_bytes s, slots_sizes slots)

decode_slots_lem :
    (slots : List CircuitMetaSlot)
    → All IsWord slots
    → decode_slots (map slot_bytes slots) ≡ ok slots
unfolding decode_slots
decode_slots_lem [] v = refl
decode_slots_lem (s ∷ slots) v = rw (decode_slot_lem s v.0) (rw (decode_slots_lem slots v.1))

-- A metadata page as `encode` writes it.
abbrev pub page_of : CircuitMetaBucket → List ℕ
page_of b = concat (map slot_bytes b.slots)

pub length-page_of :
    (b : CircuitMetaBucket) (bucket_size : ℕ)
    → length b.slots ≡ bucket_size
    → length (page_of b) ≡ circuit_meta_page_bytes bucket_size
unfolding circuit_meta_page_bytes
length-page_of b bucket_size e = omega (
  arith,
  length-concat slot_len (map slot_bytes b.slots) (slots_sizes b.slots),
  length-map b.slots slot_bytes,
  ap (λ n. n * slot_len) e,
)

-- `decode` reads the bucket back.
pub decode-page_of :
    (b : CircuitMetaBucket) (bucket_size : ℕ)
    → length b.slots ≡ bucket_size
    → All IsWord b.slots
    → decode (page_of b) bucket_size ≡ ok b
unfolding decode
decode-page_of b bucket_size e v =
    let size = length-page_of b bucket_size e in
    rw (eq→== (length (page_of b)) (circuit_meta_page_bytes bucket_size) size) (
      rw (chunks_exact-concat slot_len (map slot_bytes b.slots) (omega arith) (slots_sizes b.slots))
        (rw (decode_slots_lem b.slots v)))

encode_size :
    (b : CircuitMetaBucket) (bucket_size : ℕ) {page : List ℕ}
    → encode b bucket_size ≡ ok page
    → length b.slots ≡ bucket_size
unfolding encode encode_into
encode_size b bucket_size h = ground arith

-- When the ids and leaves of a metadata bucket fit their words and the bucket is encoded, decoding
-- the page gives the bucket back.
pub decode-encode_slots :
    (b : CircuitMetaBucket) (bucket_size : ℕ) {page : List ℕ}
    → All IsWord b.slots
    → encode b bucket_size ≡ ok page
    → decode page bucket_size ≡ ok b
decode-encode_slots b bucket_size {page} v h =
    let e : length b.slots ≡ bucket_size = encode_size b bucket_size h in
    let same : page ≡ page_of b = cc (encode_lem b bucket_size e) in
    rw same (decode-page_of b bucket_size e v)
