-- ===== src/Payload/Codec.antt =====
-- src/circuit.rs: the bytes of a payload page.
use mathlib.Core.List.{append_assoc}
use oram.Base.{
  ℕ, suc, ◌*◌, ◌<◌, ◌≡◌, refl, ap, ◌∙◌, List, [], ◌∷◌, ◌++◌, length, drop, All, length-append,
  length-drop, length-replicate, replicate, ◌==◌, eq→==, ==→eq, Bool-cases, inl, inr, arith,
}
use oram.Base.Bytes.{splice-append, concat, chunks_exact-concat, length-concat, splice}
use oram.Outcome.{ok}
use oram.Payload.{CircuitPayloadBucket, circuit_payload_page_bytes, encode_slots, encode, decode}

-- Every slot has `block_size` bytes.
abbrev pub IsSized : ℕ → List (List ℕ) → Type 0
IsSized block_size = All (λ slot. length slot ≡ block_size)

encode_slots_lem :
    (block_size : ℕ) (slots : List (List ℕ)) (i : ℕ) (done todo : List ℕ)
    → length done ≡ i * block_size
    → length todo ≡ length slots * block_size
    → IsSized block_size slots
    → encode_slots block_size i slots (done ++ todo) ≡ ok (done ++ concat slots)
unfolding encode_slots concat
encode_slots_lem n [] i done [] hd ht v = refl
encode_slots_lem n [] i done (x ∷ xs) hd ht v = absurd (omega arith)
encode_slots_lem n (s ∷ slots) i done todo hd ht v = rw (eq→== (length s) n v.0) (
    rw (splice-append (i * n) done todo hd s) (
      rw
        (encode_slots_lem n slots (suc i) (done ++ s) (drop (length s) todo)
          (omega (arith, length-append done s, v.0))
          (omega (arith, length-drop (length s) todo, v.0)) v.1)
        (ap ok (append_assoc done s (concat slots)))))

-- A bucket of the right sizes is encoded, as its slots one after the other.
pub encode_lem :
    (b : CircuitPayloadBucket) (bucket_size block_size : ℕ)
    → length b.slots ≡ bucket_size
    → IsSized block_size b.slots
    → encode b bucket_size block_size ≡ ok (concat b.slots)
unfolding encode circuit_payload_page_bytes
encode_lem b bucket_size block_size e v =
    let zero_byte : ℕ = 0 in
    let zeros : List ℕ = replicate (bucket_size * block_size) zero_byte in
    ground (
      arith,
      encode_slots_lem block_size b.slots 0 [] zeros (omega arith)
          (omega (
            arith,
            length-replicate (bucket_size * block_size) zero_byte,
            ap (λ n. n * block_size) e,
          ))
          v,
    )

pub length-concat_slots :
    (slots : List (List ℕ)) (bucket_size block_size : ℕ)
    → length slots ≡ bucket_size
    → IsSized block_size slots
    → length (concat slots) ≡ circuit_payload_page_bytes bucket_size block_size
unfolding circuit_payload_page_bytes
length-concat_slots slots bucket_size block_size e v =
    length-concat block_size slots v ∙ ap (λ n. n * block_size) e

-- `decode` reads the bucket back.
pub decode-concat :
    (b : CircuitPayloadBucket) (bucket_size block_size : ℕ)
    → 0 < block_size
    → length b.slots ≡ bucket_size
    → IsSized block_size b.slots
    → decode (concat b.slots) bucket_size block_size ≡ ok b
unfolding decode
decode-concat b bucket_size block_size pos e v =
    rw (eq→== _ _ (length-concat_slots b.slots bucket_size block_size e v))
      (rw (chunks_exact-concat block_size b.slots pos v))

encode_size :
    (b : CircuitPayloadBucket) (bucket_size block_size : ℕ) {page : List ℕ}
    → encode b bucket_size block_size ≡ ok page
    → length b.slots ≡ bucket_size
unfolding encode
encode_size b bucket_size block_size h = ground arith

encode_slots-IsSized :
    (block_size : ℕ) (slots : List (List ℕ)) (i : ℕ) (out : List ℕ) {page : List ℕ}
    → encode_slots block_size i slots out ≡ ok page
    → IsSized block_size slots
unfolding encode_slots
encode_slots-IsSized n [] i out h = tt
encode_slots-IsSized n (s ∷ slots) i out h = elim (Bool-cases (length s == n)) [
  | inl e ↦ (==→eq _ _ e, encode_slots-IsSized n slots (suc i) (splice (i * n) s out) (rw e at h))
  | inr e ↦ cc (rw e at h)
]

-- With a positive block size, when a payload bucket is encoded, decoding the page gives the bucket
-- back.
pub decode-encode_payloads :
    (b : CircuitPayloadBucket) (bucket_size block_size : ℕ) {page : List ℕ}
    → 0 < block_size
    → encode b bucket_size block_size ≡ ok page
    → decode page bucket_size block_size ≡ ok b
unfolding encode
decode-encode_payloads b bucket_size block_size {page} pos h =
    let e : length b.slots ≡ bucket_size = encode_size b bucket_size block_size h in
    let v : IsSized block_size b.slots =
      encode_slots-IsSized block_size b.slots 0 _ (rw (eq→== _ _ e) at h) in
    let same : page ≡ concat b.slots = cc (encode_lem b bucket_size block_size e v) in
    rw same (decode-concat b bucket_size block_size pos e v)
