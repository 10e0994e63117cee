-- ===== src/Cuckoo/Reader.antt =====
-- src/cuckoo.rs: the reader that packs consecutive bins of a table into blocks, and where a bin is
-- among them.
use oram.Base.{
  ℕ, ◌+◌, ◌-◌, ◌*◌, ◌/◌, ◌%◌, min, List, length, replicate, ltb, leb, ◌==◌, if◌then◌else◌, Option,
  some, none,
}
use oram.Base.Bytes.{slice, splice}
use oram.Outcome.{Result, ok, err, invalid_input, panicked, ◌>>=◌, ◌>>◌, reject_if}
use oram.Cuckoo.{CuckooTableInfo, word, bin_size, total_bins}

-- `usize::div_ceil`
abbrev pub div_ceil : ℕ → ℕ → ℕ
div_ceil a b = (a + b - 1) / b

pub record CuckooPackedBlockReader : Type 0 where
  pub table : CuckooTableInfo
  pub bins_per_block : ℕ
  pub logical_blocks : ℕ
  pub block_payload_bytes : ℕ
  pub next_block : ℕ
  pub mmap : List ℕ

-- `file` is what the path of the table maps to.
unfoldable pub open_reader : CuckooTableInfo → ℕ → List ℕ → Result CuckooPackedBlockReader
open_reader table bins_per_block file = do
  reject_if (bins_per_block == 0) invalid_input
  ok (record {
    table = table;
    bins_per_block = bins_per_block;
    logical_blocks = div_ceil (total_bins table) bins_per_block;
    block_payload_bytes = word (bin_size table * bins_per_block);
    next_block = 0;
    mmap = file;
  })

-- `xs[start..start + len]`, which ends the program out of bounds.
abbrev pub cut : List ℕ → ℕ → ℕ → Result (List ℕ)
cut xs start len = if leb (start + len) (length xs) then ok (slice start len xs) else err panicked

-- `payload[..len].copy_from_slice(part)`, likewise.
abbrev pub fill : List ℕ → List ℕ → Result (List ℕ)
fill payload part =
    if leb (length part) (length payload) then ok (splice 0 part payload) else err panicked

unfoldable pub read_block : CuckooPackedBlockReader → ℕ → Result (List ℕ)
read_block r logical_block =
    let bin = bin_size r.table in
    let start_bin = word (logical_block * r.bins_per_block) in
    let bins_to_read = min (total_bins r.table - start_bin) r.bins_per_block in
    let bytes_to_read = word (bins_to_read * bin) in
    let offset = word (r.table.data_offset + word (start_bin * bin)) in
    let end = word (offset + bytes_to_read) in
    do
      reject_if (leb r.logical_blocks logical_block) invalid_input
      reject_if (ltb (length r.mmap) end) invalid_input
      part ← cut r.mmap offset bytes_to_read
      fill (replicate r.block_payload_bytes 0) part

-- `Iterator::next`, with the reader it leaves.
unfoldable pub next : CuckooPackedBlockReader → Option (Result (List ℕ)) × CuckooPackedBlockReader
next r =
    if leb r.logical_blocks r.next_block
    then (none, r)
    else (some (read_block r r.next_block), record r { next_block = r.next_block + 1 })

pub record PackedCuckooBinLocation : Type 0 where
  pub logical_block : ℕ
  pub byte_offset : ℕ
  pub byte_len : ℕ

unfoldable pub locate_packed_cuckoo_bin : ℕ → ℕ → ℕ → ℕ → Result PackedCuckooBinLocation
locate_packed_cuckoo_bin total_bins bins_per_block bin_size bin_id = do
  reject_if (bins_per_block == 0) invalid_input
  reject_if (bin_size == 0) invalid_input
  reject_if (leb total_bins bin_id) invalid_input
  ok (record {
    logical_block = bin_id / bins_per_block;
    byte_offset = word (bin_id % bins_per_block * bin_size);
    byte_len = bin_size;
  })

unfoldable pub read_bin : CuckooPackedBlockReader → ℕ → Result (List ℕ)
read_bin r bin_id = do
  location ←
      locate_packed_cuckoo_bin (total_bins r.table) r.bins_per_block (bin_size r.table) bin_id
  block ← read_block r location.logical_block
  cut block location.byte_offset location.byte_len
