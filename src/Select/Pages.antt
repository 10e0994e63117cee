-- ===== src/Select/Pages.antt =====
-- src/circuit.rs: the two pages of a bucket of blocks.
use oram.Base.{ℕ, ◌<◌, ◌≡◌, ◌∙◌, List, [], ◌∷◌, map, length, length-map, All}
use oram.Base.Bytes.{concat}
use oram.Outcome.{ok}
use oram.Block.{OramBlock}
use oram.Block.Shape.{IsBlock}
use oram.Meta
use oram.Meta.{CircuitMetaBucket, circuit_meta_page_bytes}
use oram.Meta.Codec.{IsWord, page_of, decode-page_of, length-page_of}
use oram.Meta.Codec as MetaCodec
use oram.Payload
use oram.Payload.{CircuitPayloadBucket, circuit_payload_page_bytes}
use oram.Payload.Codec.{IsSized, decode-concat, length-concat_slots}
use oram.Payload.Codec as PayloadCodec
use oram.Select.Laws.{meta_of, payload_of}

-- A bucket as it stands in the tree: `bucket_size` blocks.
pub record IsBucket (bucket_size block_size : ℕ) (bl : List OramBlock) : Type 0 where
  pub slots : length bl ≡ bucket_size
  pub blocks : All (IsBlock block_size) bl

abbrev pub meta_bucket : List OramBlock → CircuitMetaBucket
meta_bucket bl = record { slots = map meta_of bl }

abbrev pub payload_bucket : List OramBlock → CircuitPayloadBucket
payload_bucket bl = record { slots = map payload_of bl }

unfoldable pub meta_page : List OramBlock → List ℕ
meta_page bl = page_of (meta_bucket bl)

unfoldable pub payload_page : List OramBlock → List ℕ
payload_page bl = concat (map payload_of bl)

metas_words : (n : ℕ) (bl : List OramBlock) → All (IsBlock n) bl → All IsWord (map meta_of bl)
metas_words n [] h = tt
metas_words n (b ∷ bl) h = ((h.0.id_fits, h.0.leaf_fits), metas_words n bl h.1)

payloads-IsSized :
    (n : ℕ) (bl : List OramBlock) → All (IsBlock n) bl → IsSized n (map payload_of bl)
payloads-IsSized n [] h = tt
payloads-IsSized n (b ∷ bl) h = (h.0.sized, payloads-IsSized n bl h.1)

module _ {bucket_size block_size : ℕ} (bl : List OramBlock)
    (v : IsBucket bucket_size block_size bl) where
  metas_slots : length (map meta_of bl) ≡ bucket_size
  metas_slots = length-map bl meta_of ∙ v.slots

  payloads_slots : length (map payload_of bl) ≡ bucket_size
  payloads_slots = length-map bl payload_of ∙ v.slots

  pub decode-meta_page : Meta.decode (meta_page bl) bucket_size ≡ ok (meta_bucket bl)
  unfolding meta_page
  decode-meta_page =
      decode-page_of (meta_bucket bl) bucket_size metas_slots (metas_words block_size bl v.blocks)

  pub encode-meta_page : Meta.encode (meta_bucket bl) bucket_size ≡ ok (meta_page bl)
  unfolding meta_page
  encode-meta_page = MetaCodec.encode_lem (meta_bucket bl) bucket_size metas_slots

  pub length-meta_page : length (meta_page bl) ≡ circuit_meta_page_bytes bucket_size
  unfolding meta_page
  length-meta_page = length-page_of (meta_bucket bl) bucket_size metas_slots

  pub decode-payload_page :
      0 < block_size
      → Payload.decode (payload_page bl) bucket_size block_size ≡ ok (payload_bucket bl)
  unfolding payload_page
  decode-payload_page pos =
      decode-concat (payload_bucket bl) bucket_size block_size pos payloads_slots
        (payloads-IsSized block_size bl v.blocks)

  pub encode-payload_page :
      Payload.encode (payload_bucket bl) bucket_size block_size ≡ ok (payload_page bl)
  unfolding payload_page
  encode-payload_page =
      PayloadCodec.encode_lem (payload_bucket bl) bucket_size block_size payloads_slots
        (payloads-IsSized block_size bl v.blocks)

  pub length-payload_page :
      length (payload_page bl) ≡ circuit_payload_page_bytes bucket_size block_size
  unfolding payload_page
  length-payload_page =
      length-concat_slots (map payload_of bl) bucket_size block_size payloads_slots
        (payloads-IsSized block_size bl v.blocks)
