-- ===== src/Tests/Cuckoo.antt =====
-- A chunk table of three bins of one slot, two bins to a block; and a header whose sizes wrap.
use oram.Base.{ℕ, ◌+◌, ◌*◌, ◌^◌, ◌≡◌, refl, none, some, List, ◌∷◌, ◌++◌, replicate, arith}
use oram.Base.Bytes.{slice, from_le_bytes}
use oram.Outcome.{ok}
use oram.Cuckoo.{
  index_level, chunk_level, legacy, CuckooTableInfo, from_file, parse_anchor_kind, validate,
  expected_file_bytes, table_byte_size, bin_size, total_bins,
}
use oram.Cuckoo.Reader.{CuckooPackedBlockReader, open_reader, read_bin, read_block}
use oram.Cuckoo.Packing.{IsWholeTable, read_block_lem, count, offset}
use oram.Cuckoo.Opened.{opened_read_bin, opened-IsWholeTable}

abbrev chunk_header : List ℕ
chunk_header =
    2
    ∷ 0
    ∷ 0
    ∷ 192
    ∷ 0
    ∷ 192
    ∷ 124
    ∷ 186
    ∷ 1
    ∷ 0
    ∷ 0
    ∷ 0
    ∷ 1
    ∷ 0
    ∷ 0
    ∷ 0
    ∷ 3
    ∷ 0
    ∷ 0
    ∷ 0
    ∷ 2
    ∷ 0
    ∷ 0
    ∷ 0
    ∷ replicate 8 9

abbrev chunk_file : List ℕ
chunk_file = chunk_header ++ (replicate 44 1 ++ (replicate 44 2 ++ replicate 44 3))

abbrev chunk_table : CuckooTableInfo
chunk_table = record {
  level = chunk_level;
  file_bytes = 164;
  magic = 0xba7c_c000_c000_0002;
  anchor_kind = legacy;
  data_offset = 32;
  k = 1;
  slots_per_bin = 1;
  bins_per_table = 3;
  num_hashes = 2;
  master_seed = 0x0909_0909_0909_0909;
  tag_seed = none;
  slot_bytes = 44;
}

abbrev chunk_reader : CuckooPackedBlockReader
chunk_reader = record {
  table = chunk_table;
  bins_per_block = 2;
  logical_blocks = 2;
  block_payload_bytes = 88;
  next_block = 0;
  mmap = chunk_file;
}

chunk_parsed : from_file chunk_level chunk_file ≡ ok chunk_table
unfolding from_file parse_anchor_kind validate expected_file_bytes table_byte_size bin_size
    from_le_bytes
chunk_parsed = refl

chunk_opened : open_reader chunk_table 2 chunk_file ≡ ok chunk_reader
unfolding open_reader total_bins bin_size
chunk_opened = refl

opened_read_bin_example :
    read_bin chunk_reader 2 ≡ ok (slice (32 + 2 * (1 * 44)) (1 * 44) chunk_file)
opened_read_bin_example =
    opened_read_bin chunk_level chunk_file chunk_table chunk_parsed 2 chunk_reader chunk_opened
      (omega arith) (omega arith) 2 (omega arith)

chunk_whole : IsWholeTable chunk_reader 3 44
chunk_whole =
    opened-IsWholeTable chunk_level chunk_file chunk_table chunk_parsed 2 chunk_reader chunk_opened
      (omega arith) (omega arith)

read_block_lem_example :
    read_block chunk_reader 1
    ≡ ok (
        slice
          (offset chunk_reader 3 44 chunk_whole 1 (omega arith))
          (count chunk_reader 3 44 chunk_whole 1 (omega arith) * 44)
          chunk_file
        ++ replicate 44 0)
read_block_lem_example = read_block_lem chunk_reader 3 44 chunk_whole 1 (omega arith)

-- 2 ^ 31 groups of 2 ^ 31 bins of 4 slots: the size wraps to that of the header alone.
abbrev wrapped_header : List ℕ
wrapped_header =
    4
    ∷ 0
    ∷ 0
    ∷ 192
    ∷ 0
    ∷ 192
    ∷ 124
    ∷ 186
    ∷ 0
    ∷ 0
    ∷ 0
    ∷ 128
    ∷ 4
    ∷ 0
    ∷ 0
    ∷ 0
    ∷ 0
    ∷ 0
    ∷ 0
    ∷ 128
    ∷ 1
    ∷ 0
    ∷ 0
    ∷ 0
    ∷ replicate 16 0

-- A file of this header and nothing else is let through.
wrapped_parsed :
    from_file index_level wrapped_header
    ≡ ok (record {
      level = index_level;
      file_bytes = 40;
      magic = 0xba7c_c000_c000_0004;
      anchor_kind = legacy;
      data_offset = 40;
      k = 2 ^ 31;
      slots_per_bin = 4;
      bins_per_table = 2 ^ 31;
      num_hashes = 1;
      master_seed = 0;
      tag_seed = some 0;
      slot_bytes = 13;
    })
unfolding from_file parse_anchor_kind validate expected_file_bytes table_byte_size bin_size
    from_le_bytes
wrapped_parsed = refl
