-- ===== src/Tests/Stores.antt =====
-- The pages at concrete inputs: codecs, buckets, stores.
use oram.Base.{ℕ, ◌≡◌, refl, Bool, true, false, List, [], ◌∷◌, map, arith, ltb, ◌&&◌}
use oram.Base.Bytes.{IsBytes, concat, to_le_bytes}
use oram.Outcome.{ok}
use oram.Ct.Laws.{holds}
use oram.Block.{OramBlock, encode_into, decode_from}
use oram.Block
use oram.Block.Codec.{decode_from-encode_into, encode_into-decode_from}
use oram.Block.Shape.{IsBlock}
use oram.Meta.{CircuitMetaSlot, CircuitMetaBucket}
use oram.Meta
use oram.Meta.Codec.{decode-encode_slots, encode_lem, page_of}
use oram.Payload.{CircuitPayloadBucket}
use oram.Payload
use oram.Payload.Codec.{decode-encode_payloads}
use oram.Payload.Codec as PayloadCodec
use oram.Select.{remove_from_pages, select_and_remove_target_slots}
use oram.Select.Laws.{meta_of, payload_of, Scanned, select_and_remove_lem}
use oram.Select.Pages.{IsBucket, meta_page, payload_page}
use oram.Select.Path.{PathScanned, remove_from_pages_lem}
use oram.Store.{Page, Served, overwrite_paths}
use oram.Store.Blanket.{
  read_paths_pages, write_paths_pages, read_paths_pages-Served, write_paths_pages-Served,
}
use oram.Store.Mem.{MemPageStore, IsWhole, mem_view}
use oram.Store.Default.{with_defaults}
use oram.Store.Mem.Laws.{mem_pages}
use oram.Overlay.{collect_overlay_paths}
use oram.Overlay.Laws.{overlay_path_pages_lem, collect_overlay_paths-overlay_path_pages}
use oram.Tests.Fixtures.{bool_subtle, small, block_of}

seven-IsBlock : IsBlock 1 (block_of 0 7)
seven-IsBlock = record {
  sized = refl;
  bytes = (omega arith, tt);
  id_fits = omega arith;
  leaf_fits = omega arith;
}

block-IsBucket : IsBucket 1 1 (block_of 0 7 ∷ [])
block-IsBucket = record { slots = refl; blocks = (seven-IsBlock, tt) }

select_and_remove_lem_example : Scanned bool_subtle 1 0 (block_of 0 7 ∷ []) (block_of 5 5) false (
    select_and_remove_target_slots bool_subtle
      (map meta_of (block_of 0 7 ∷ []))
      (map payload_of (block_of 0 7 ∷ []))
      0
      (block_of 5 5)
      false)
unfolding holds
select_and_remove_lem_example =
    select_and_remove_lem bool_subtle 1 0 (block_of 0 7 ∷ []) (block_of 5 5) false
      (seven-IsBlock, tt) refl

remove_from_pages_lem_example :
    PathScanned bool_subtle small
      (omega arith)
      0
      ((block_of 0 7 ∷ []) ∷ [])
      (block_of 5 5)
      (holds bool_subtle false)
      (remove_from_pages bool_subtle small 0
        (map meta_page ((block_of 0 7 ∷ []) ∷ []))
        (map payload_page ((block_of 0 7 ∷ []) ∷ []))
        (block_of 5 5)
        false)
remove_from_pages_lem_example =
    remove_from_pages_lem bool_subtle small (omega arith) 0 ((block_of 0 7 ∷ []) ∷ [])
      (block_of 5 5) false (block-IsBucket, tt) refl

abbrev block_bytes : List ℕ
block_bytes = 1 ∷ 0 ∷ 0 ∷ 0 ∷ 0 ∷ 0 ∷ 0 ∷ 0 ∷ 0 ∷ 1 ∷ 0 ∷ 0 ∷ 0 ∷ 7 ∷ []

abbrev blank : List ℕ
blank = 0 ∷ 0 ∷ 0 ∷ 0 ∷ 0 ∷ 0 ∷ 0 ∷ 0 ∷ 0 ∷ 0 ∷ 0 ∷ 0 ∷ 0 ∷ 0 ∷ []

block_encoded : encode_into (block_of 0 7) blank 1 ≡ ok block_bytes
unfolding encode_into Block.serialized_len to_le_bytes
block_encoded = refl

decode_from-encode_into_example : decode_from block_bytes 1 ≡ ok (block_of 0 7)
decode_from-encode_into_example =
    decode_from-encode_into (block_of 0 7) blank 1
      (record { id_fits = omega arith; leaf_fits = omega arith }) block_encoded

abbrev metas : CircuitMetaBucket
metas = record { slots = record { occupied = true; logical_id = 3; leaf = 1 } ∷ [] }

decode-encode_slots_example : Meta.decode (page_of metas) 1 ≡ ok metas
decode-encode_slots_example =
    decode-encode_slots metas 1 ((omega arith, omega arith), tt) (encode_lem metas 1 refl)

abbrev payloads : CircuitPayloadBucket
payloads = record { slots = (4 ∷ 5 ∷ []) ∷ (6 ∷ 7 ∷ []) ∷ [] }

decode-encode_payloads_example : Payload.decode (concat payloads.slots) 2 2 ≡ ok payloads
decode-encode_payloads_example =
    decode-encode_payloads payloads 2 2 (omega arith)
      (PayloadCodec.encode_lem payloads 2 2 refl (refl, (refl, tt)))

abbrev pub two_pages : MemPageStore
two_pages = record { size = 2; pages = 1 ∷ 2 ∷ 3 ∷ 4 ∷ [] }

pub two_pages-IsWhole : IsWhole two_pages
two_pages-IsWhole = record { size_pos = omega arith; whole = refl }

read_paths_pages-Served_example :
    Served mem_view two_pages
      (read_paths_pages (with_defaults mem_pages) ((0 ∷ 1 ∷ []) ∷ (1 ∷ []) ∷ []) two_pages)
      (map (map (mem_view.page two_pages)) ((0 ∷ 1 ∷ []) ∷ (1 ∷ []) ∷ []))
      (mem_view.page two_pages)
read_paths_pages-Served_example =
    read_paths_pages-Served (with_defaults mem_pages) ((0 ∷ 1 ∷ []) ∷ (1 ∷ []) ∷ []) two_pages
      two_pages-IsWhole ((omega arith, (omega arith, tt)), ((omega arith, tt), tt))

write_paths_pages-Served_example :
    Served mem_view two_pages
      (write_paths_pages
        (with_defaults mem_pages)
        ((1 ∷ []) ∷ [])
        (((8 ∷ 9 ∷ []) ∷ []) ∷ [])
        two_pages)
      tt
      (overwrite_paths (mem_view.page two_pages) ((1 ∷ []) ∷ []) (((8 ∷ 9 ∷ []) ∷ []) ∷ []))
write_paths_pages-Served_example =
    write_paths_pages-Served (with_defaults mem_pages) ((1 ∷ []) ∷ []) (((8 ∷ 9 ∷ []) ∷ []) ∷ [])
      two_pages two_pages-IsWhole ((omega arith, tt), tt)
      (record { many = refl; sized = (refl, tt) }, tt)

block_decoded : decode_from block_bytes 1 ≡ ok (block_of 0 7)
block_decoded =
    decode_from-encode_into (block_of 0 7) blank 1
      (record { id_fits = omega arith; leaf_fits = omega arith }) block_encoded

all_small : List ℕ → Bool
all_small [] = true
all_small (x ∷ xs) = ltb x 256 && all_small xs

IsBytes-small : (xs : List ℕ) → all_small xs ≡ true → IsBytes xs
unfolding all_small
IsBytes-small [] h = tt
IsBytes-small (x ∷ xs) h = (ground arith, IsBytes-small xs (ground arith))

block_bytes-IsBytes : IsBytes block_bytes
unfolding all_small
block_bytes-IsBytes = IsBytes-small block_bytes refl

encode_into-decode_from_example : encode_into (block_of 0 7) blank 1 ≡ ok block_bytes
encode_into-decode_from_example =
    encode_into-decode_from block_bytes blank 1 block_bytes-IsBytes refl block_decoded

abbrev one_byte : ℕ → Page
one_byte i = i ∷ []

collect_overlay_paths-overlay_path_pages_example :
    collect_overlay_paths
      ((0 ∷ 1 ∷ []) ∷ (0 ∷ 2 ∷ []) ∷ [])
      (overlay_path_pages_lem one_byte 1
        ((0 ∷ 1 ∷ []) ∷ (0 ∷ 2 ∷ []) ∷ [])
        ((refl, (refl, tt)), ((refl, (refl, tt)), tt))).overlay
    ≡ ok (map (map one_byte) ((0 ∷ 1 ∷ []) ∷ (0 ∷ 2 ∷ []) ∷ []))
collect_overlay_paths-overlay_path_pages_example =
    collect_overlay_paths-overlay_path_pages one_byte 1 ((0 ∷ 1 ∷ []) ∷ (0 ∷ 2 ∷ []) ∷ [])
      ((refl, (refl, tt)), ((refl, (refl, tt)), tt))
      (overlay_path_pages_lem one_byte 1 ((0 ∷ 1 ∷ []) ∷ (0 ∷ 2 ∷ []) ∷ [])
        ((refl, (refl, tt)), ((refl, (refl, tt)), tt))).result_is
