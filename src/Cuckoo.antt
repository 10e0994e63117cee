-- ===== src/Cuckoo.antt =====
-- src/cuckoo.rs: the header of a cuckoo table file, and the table that it announces. A file is its
-- bytes; what opening and mapping it can do wrong is left out. Products and sums that can pass a word
-- of 64 bits wrap, as they do in a release build.
pub mod Reader
pub mod Packing
pub mod Opened
pub mod Source
pub mod Circuit
pub mod Bins
use oram.Base.{
  ℕ, ◌+◌, ◌*◌, ◌/◌, ◌%◌, ◌^◌, ◌-◌, bit_xor, Bool, List, length, ltb, ◌==◌, not, if◌then◌else◌,
  Option, some, none,
}
use oram.Base.Bytes.{from_le_bytes, slice}
use oram.Outcome.{Result, ok, err, io, invalid_input, ◌>>=◌, ◌>>◌, reject_if}

pub data CuckooLevel : Type 0 where
  index_level chunk_level : CuckooLevel

-- 0xBA7C_C000_C000_0004 and 0xBA7C_C000_C000_0002
abbrev base_magic : CuckooLevel → ℕ
base_magic index_level = 0xba7c_c000_c000_0004
base_magic chunk_level = 0xba7c_c000_c000_0002

abbrev pub base_header_size : CuckooLevel → ℕ
base_header_size index_level = 40
base_header_size chunk_level = 32

abbrev pub slot_size : CuckooLevel → ℕ
slot_size index_level = 13
slot_size chunk_level = 44

pub data CuckooAnchorKind : Type 0 where
  legacy snapshot delta : CuckooAnchorKind

abbrev pub extra_header_bytes : CuckooAnchorKind → ℕ
extra_header_bytes legacy = 0
extra_header_bytes snapshot = 36
extra_header_bytes delta = 72

pub record CuckooTableInfo : Type 0 where
  pub level : CuckooLevel
  pub file_bytes : ℕ
  pub magic : ℕ
  pub anchor_kind : CuckooAnchorKind
  pub data_offset : ℕ
  pub k : ℕ
  pub slots_per_bin : ℕ
  pub bins_per_table : ℕ
  pub num_hashes : ℕ
  pub master_seed : ℕ
  pub tag_seed : Option ℕ
  pub slot_bytes : ℕ

-- `usize` and `u64` arithmetic.
abbrev pub word : ℕ → ℕ
word x = x % 2 ^ 64

unfoldable pub bin_size : CuckooTableInfo → ℕ
bin_size t = word (t.slots_per_bin * t.slot_bytes)

unfoldable pub total_bins : CuckooTableInfo → ℕ
total_bins t = word (t.k * t.bins_per_table)

unfoldable pub table_byte_size : CuckooTableInfo → ℕ
unfolding bin_size
table_byte_size t = word (t.bins_per_table * bin_size t)

unfoldable pub expected_file_bytes : CuckooTableInfo → ℕ
unfolding table_byte_size
expected_file_bytes t = word (t.data_offset + word (t.k * table_byte_size t))

unfoldable pub validate : CuckooTableInfo → Result (Unit {0})
unfolding expected_file_bytes
validate t = do
  reject_if (t.k == 0) invalid_input
  reject_if (t.slots_per_bin == 0) invalid_input
  reject_if (t.bins_per_table == 0) invalid_input
  reject_if (t.num_hashes == 0) invalid_input
  reject_if (not (t.file_bytes == expected_file_bytes t)) invalid_input
  ok tt

unfoldable pub parse_anchor_kind : CuckooLevel → ℕ → Result CuckooAnchorKind
parse_anchor_kind level magic =
    if magic == base_magic level
    then ok legacy
    else if magic == bit_xor (base_magic level) 0x0000_0001_0000_0000
    then ok snapshot
    else if magic == bit_xor (base_magic level) 0x0000_0002_0000_0000
    then ok delta
    else err invalid_input

-- The seed of the tags stands in the header of an index table only.
abbrev pub parse_tag_seed : CuckooLevel → List ℕ → Option ℕ
parse_tag_seed index_level header = some (from_le_bytes (slice 32 8 header))
parse_tag_seed chunk_level header = none

-- The fields of a header, before they are checked.
abbrev pub header_info : CuckooLevel → List ℕ → CuckooAnchorKind → CuckooTableInfo
header_info level file anchor_kind = record {
  level = level;
  file_bytes = length file;
  magic = from_le_bytes (slice 0 8 file);
  anchor_kind = anchor_kind;
  data_offset = base_header_size level + extra_header_bytes anchor_kind;
  k = from_le_bytes (slice 8 4 file);
  slots_per_bin = from_le_bytes (slice 12 4 file);
  bins_per_table = from_le_bytes (slice 16 4 file);
  num_hashes = from_le_bytes (slice 20 4 file);
  master_seed = from_le_bytes (slice 24 8 file);
  tag_seed = parse_tag_seed level file;
  slot_bytes = slot_size level;
}

-- `read_exact` of the header fails on a file that is too short.
unfoldable pub from_file : CuckooLevel → List ℕ → Result CuckooTableInfo
from_file level file = do
  reject_if (ltb (length file) (base_header_size level)) io
  anchor_kind ← parse_anchor_kind level (from_le_bytes (slice 0 8 file))
  validate (header_info level file anchor_kind)
  ok (header_info level file anchor_kind)
