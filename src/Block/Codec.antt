-- ===== src/Block/Codec.antt =====
-- src/block.rs: the bytes of a block. The layout `occupied, id, leaf, rest` is the one that the
-- metadata slots have too, with no rest.
use oram.Base.{
  ℕ, zero, suc, ◌+◌, ◌-◌, ◌^◌, ◌≤◌, ◌<◌, ◌≡◌, refl, sym, ap, ap₂, ◌∙◌, ◌⊎◌, inl, inr, Bool, true,
  false, List, [], ◌∷◌, ◌++◌, length, take, drop, get_or, length-append, take-append, drop-append,
  take-append-drop, length-drop, ◌==◌, if◌then◌else◌, arith, All, All-take, All-drop,
}
use oram.Base.Bytes.{
  drop-drop, IsByte, IsBytes, to_le_bytes, from_le_bytes, slice, length-to_le_bytes,
  from_le_bytes-to_le_bytes, to_le_bytes-from_le_bytes,
}
use oram.Base
use oram.Outcome.{ok}
use oram.Block.{OramBlock, serialized_len, encode_into, decode_from, empty, occupied}

abbrev pub occupied_byte : Bool → ℕ
occupied_byte b = if b then occupied else empty

abbrev pub layout : ℕ → ℕ → ℕ → List ℕ → List ℕ
layout o id leaf rest = o ∷ (to_le_bytes 8 id ++ (to_le_bytes 4 leaf ++ rest))

module _ (o id leaf : ℕ) (rest : List ℕ) where
  pub length-layout : length (layout o id leaf rest) ≡ 13 + length rest
  length-layout = omega (
    arith,
    length-append (to_le_bytes 8 id) (to_le_bytes 4 leaf ++ rest),
    length-append (to_le_bytes 4 leaf) rest,
    length-to_le_bytes 8 id,
    length-to_le_bytes 4 leaf,
  )

  pub layout_id : slice 1 8 (layout o id leaf rest) ≡ to_le_bytes 8 id
  layout_id = take-append 8 (to_le_bytes 8 id) _ (length-to_le_bytes 8 id)

  after_id : drop 9 (layout o id leaf rest) ≡ to_le_bytes 4 leaf ++ rest
  after_id = drop-append 8 (to_le_bytes 8 id) _ (length-to_le_bytes 8 id)

  pub layout_leaf : slice 9 4 (layout o id leaf rest) ≡ to_le_bytes 4 leaf
  layout_leaf =
      ap (take 4) after_id ∙ take-append 4 (to_le_bytes 4 leaf) rest (length-to_le_bytes 4 leaf)

  pub layout_rest : drop 13 (layout o id leaf rest) ≡ rest
  layout_rest =
      sym (drop-drop 9 4 (layout o id leaf rest))
      ∙ (ap (drop 4) after_id ∙ drop-append 4 (to_le_bytes 4 leaf) rest (length-to_le_bytes 4 leaf))

  -- Words that fit are read back.
  pub layout_words :
      id < 2 ^ 64
      → leaf < 2 ^ 32
      → (from_le_bytes (slice 1 8 (layout o id leaf rest)) ≡ id)
        × (from_le_bytes (slice 9 4 (layout o id leaf rest)) ≡ leaf)
  layout_words hid hleaf = (
    ap from_le_bytes layout_id ∙ from_le_bytes-to_le_bytes 8 id (omega arith),
    ap from_le_bytes layout_leaf ∙ from_le_bytes-to_le_bytes 4 leaf (omega arith),
  )

slice_le_bytes :
    (w start : ℕ) (xs : List ℕ)
    → IsBytes xs
    → start + w ≤ length xs
    → to_le_bytes w (from_le_bytes (slice start w xs)) ≡ slice start w xs
slice_le_bytes w start xs h fits =
    ap (λ n. to_le_bytes n (from_le_bytes (slice start w xs))) (omega (arith, length-slice))
    ∙ to_le_bytes-from_le_bytes (slice start w xs)
        (All-take IsByte w _ (All-drop IsByte start xs h))
  where
    length-slice : length (slice start w xs) ≡ w
    length-slice = omega (arith, Base.length-take w (drop start xs), length-drop start xs)

-- Bytes that are long enough have this layout.
pub layout-of_bytes :
    (x : ℕ) (xs : List ℕ)
    → IsBytes (x ∷ xs)
    → 13 ≤ length (x ∷ xs)
    → layout x
        (from_le_bytes (slice 1 8 (x ∷ xs)))
        (from_le_bytes (slice 9 4 (x ∷ xs)))
        (drop 13 (x ∷ xs))
      ≡ x ∷ xs
layout-of_bytes x xs h fits = ap (◌∷◌ x) (
    ap₂ ◌++◌ (slice_le_bytes 8 1 (x ∷ xs) h (omega arith)) (
      ap₂ ◌++◌ (slice_le_bytes 4 9 (x ∷ xs) h (omega arith)) (sym (drop-drop 8 4 xs))
      ∙ take-append-drop 4 (drop 8 xs))
    ∙ take-append-drop 8 xs)

-- Words that a block's fields are.
pub record IsWord (b : OramBlock) : Type 0 where
  pub id_fits : b.logical_id < 2 ^ 64
  pub leaf_fits : b.leaf < 2 ^ 32

-- When the id and the leaf of a block fit their words and the block is encoded, decoding gives the
-- block back.
pub decode_from-encode_into :
    (b : OramBlock) (out : List ℕ) (block_size : ℕ) {bytes : List ℕ}
    → IsWord b
    → encode_into b out block_size ≡ ok bytes
    → decode_from bytes block_size ≡ ok b
unfolding encode_into decode_from serialized_len
decode_from-encode_into b out block_size v h =
    let o : ℕ = occupied_byte b.occupied in
    ground (
      arith,
      length-layout o b.logical_id b.leaf b.payload,
      layout_words o b.logical_id b.leaf b.payload v.id_fits v.leaf_fits,
      layout_rest o b.logical_id b.leaf b.payload,
    )

-- When bytes are decoded to a block, encoding it into a buffer of the same length gives the bytes
-- back.
pub encode_into-decode_from :
    (input out : List ℕ) (block_size : ℕ) {b : OramBlock}
    → IsBytes input
    → length out ≡ length input
    → decode_from input block_size ≡ ok b
    → encode_into b out block_size ≡ ok input
unfolding encode_into decode_from serialized_len
encode_into-decode_from [] out block_size v e h = ground arith
encode_into-decode_from (x ∷ xs) out block_size v e h =
    ground (arith, layout-of_bytes x xs v, length-drop 13 (x ∷ xs))
