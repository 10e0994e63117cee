-- ===== src/Cuckoo/Source.antt =====
-- src/cuckoo.rs: the packed blocks of a table as a source of blocks for a trusted build.
use oram.Build.{TrustedBlockSource}
use oram.Cuckoo.Reader.{CuckooPackedBlockReader, read_block}

abbrev pub packed_block_source : TrustedBlockSource
packed_block_source = record {
  State = CuckooPackedBlockReader;
  logical_blocks = λ r. r.logical_blocks;
  block_size = λ r. r.block_payload_bytes;
  read_block = λ logical_id r. (read_block r logical_id, r);
}
