-- ===== src/Cuckoo/Packing.antt =====
-- src/cuckoo.rs: what the reader makes of a table whose file is whole. Block `b` has the bins from
-- `b * bins_per_block` on, and zeros where the table ends; a bin is read back from its block.
use native.Mathlib.Nat.{
  add-mul, mod-eq_of_lt, mul-le-mul_left, mul-le-mul_right, div-mul-le_self, div-add-mod', mod-lt,
}
use oram.Base.{
  ℕ, ◌+◌, ◌-◌, ◌*◌, ◌/◌, ◌%◌, ◌^◌, ◌≤◌, ◌<◌, ◌≡◌, refl, ap, ◌∙◌, min, List, ◌++◌, length,
  length-append, length-take, length-drop, length-replicate, replicate, take, drop, ltb, leb, true,
  false, ne→==, arith,
}
use oram.Base.Bytes.{slice, slice-front, slice-take, drop-replicate, drop-drop}
use oram.Outcome.{ok}
use oram.Cuckoo.{word, bin_size, total_bins}
use oram.Cuckoo.Reader.{
  CuckooPackedBlockReader, div_ceil, read_block, read_bin, locate_packed_cuckoo_bin, cut, fill,
}

-- A table as its header says, within a word of 64 bits, and blocks of some of its bins.
pub record IsWholeTable (r : CuckooPackedBlockReader) (total bin : ℕ) : Type 0 where
  pub total_is : r.table.k * r.table.bins_per_table ≡ total
  pub bin_is : r.table.slots_per_bin * r.table.slot_bytes ≡ bin
  pub length_is : length r.mmap ≡ r.table.data_offset + total * bin
  pub length_fits : length r.mmap < 2 ^ 64
  pub total_pos : 0 < total
  pub bin_pos : 0 < bin
  pub some_bins : 0 < r.bins_per_block
  pub block_fits : bin * r.bins_per_block < 2 ^ 64
  pub blocks_are : r.logical_blocks ≡ div_ceil total r.bins_per_block
  pub payload_is : r.block_payload_bytes ≡ bin * r.bins_per_block

block-lt :
    (b per_block total : ℕ) → 0 < per_block → b * per_block < total → b < div_ceil total per_block
block-lt b per_block total pos h = grind arith

-- The blocks are no more than reach the last bin.
start-lt :
    (b per_block total : ℕ) → 0 < per_block → b < div_ceil total per_block → b * per_block < total
start-lt b per_block total pos lt =
    omega
      (arith, pos, div-mul-le_self (total + per_block - 1) per_block, mul-le-mul_right per_block lt)

leb-no : (n b : ℕ) → b < n → leb n b ≡ false
leb-no n b h = ground arith

ltb-no : (n m : ℕ) → m ≤ n → ltb n m ≡ false
ltb-no n m h = ground arith

cut_ok :
    (xs : List ℕ) (start len : ℕ)
    → start + len ≤ length xs
    → cut xs start len ≡ ok (slice start len xs)
cut_ok xs start len h = ground arith

fill_ok :
    (n : ℕ) (part : List ℕ)
    → length part ≤ n
    → fill (replicate n 0) part ≡ ok (part ++ replicate (n - length part) 0)
fill_ok n part h =
    let zero_byte : ℕ = 0 in
    let fits : leb (length part) (length (replicate n zero_byte)) ≡ true =
      ground (arith, length-replicate n zero_byte) in
    let front : 0 + length part ≡ length part = omega arith in
    rw (fits, front) (ap (λ ys. ok (part ++ ys)) (drop-replicate (length part) n 0))

-- A bin of the table has its place.
pub located :
    (total per_block bin bin_id : ℕ)
    → 0 < per_block
    → 0 < bin
    → bin_id < total
    → locate_packed_cuckoo_bin total per_block bin bin_id
      ≡ ok (record {
        logical_block = bin_id / per_block;
        byte_offset = word (bin_id % per_block * bin);
        byte_len = bin;
      })
unfolding locate_packed_cuckoo_bin
located total per_block bin bin_id p b lt =
    rw
      (ne→== per_block 0 (omega (arith, p)), ne→== bin 0 (omega (arith, b)), leb-no total bin_id lt)
      refl

module _ (r : CuckooPackedBlockReader) (total bin : ℕ) (v : IsWholeTable r total bin) where
  total-le : total ≤ total * bin
  total-le = omega (arith, mul-le-mul_left total v.bin_pos)

  bin-le : bin ≤ total * bin
  bin-le = omega (arith, mul-le-mul_right bin v.total_pos)

  total_bins_is : total_bins r.table ≡ total
  unfolding total_bins
  total_bins_is =
      ap word v.total_is ∙ mod-eq_of_lt (omega (arith, total-le, v.length_is, v.length_fits))

  bin_size_is : bin_size r.table ≡ bin
  unfolding bin_size
  bin_size_is = ap word v.bin_is ∙ mod-eq_of_lt (omega (arith, bin-le, v.length_is, v.length_fits))

  module _ (b : ℕ) (lt : b < r.logical_blocks) where
    abbrev start : ℕ
    start = b * r.bins_per_block

    -- The bins of the block that the table has.
    abbrev pub count : ℕ
    count = min (total - b * r.bins_per_block) r.bins_per_block

    -- Where they stand in the file.
    abbrev pub offset : ℕ
    offset = r.table.data_offset + b * r.bins_per_block * bin

    inside : start < total
    inside = start-lt b r.bins_per_block total v.some_bins (rw (← v.blocks_are) lt)

    in_file : offset + count * bin ≤ length r.mmap
    in_file =
        let le : start + count ≤ total = omega (arith, inside) in
        omega (arith, mul-le-mul_right bin le, add-mul start count bin, v.length_is)

    in_block : count * bin ≤ bin * r.bins_per_block
    in_block =
        let le : count ≤ r.bins_per_block = omega arith in omega (arith, mul-le-mul_right bin le)

    start-le : start ≤ total * bin
    start-le = omega (arith, inside, total-le)

    -- When the file of a reader has the length that its table announces, within a word of 64 bits,
    -- every block in range is read as the bytes of its bins in the file, in order, with zeros
    -- after them up to the block size.
    pub read_block_lem :
        read_block r b
        ≡ ok (
            slice offset (count * bin) r.mmap ++ replicate (bin * r.bins_per_block - count * bin) 0)
    unfolding read_block
    read_block_lem =
        let part : List ℕ = slice offset (count * bin) r.mmap in
        let long : length part ≡ count * bin = omega (
          arith,
          length-take (count * bin) (drop offset r.mmap),
          length-drop offset r.mmap,
          in_file,
        ) in
        let fits : offset + count * bin < 2 ^ 64 = omega (arith, in_file, v.length_fits) in
        let one : word start ≡ start =
          mod-eq_of_lt (omega (arith, start-le, v.length_is, v.length_fits)) in
        let two : word (count * bin) ≡ count * bin = mod-eq_of_lt (omega (arith, fits)) in
        let three : word (start * bin) ≡ start * bin = mod-eq_of_lt (omega (arith, fits)) in
        let four : word offset ≡ offset = mod-eq_of_lt (omega (arith, fits)) in
        let five : word (offset + count * bin) ≡ offset + count * bin = mod-eq_of_lt fits in
        rw
          (
            bin_size_is,
            total_bins_is,
            one,
            two,
            three,
            four,
            five,
            leb-no r.logical_blocks b lt,
            ltb-no (length r.mmap) (offset + count * bin) in_file,
            cut_ok r.mmap offset (count * bin) in_file,
            v.payload_is,
            fill_ok (bin * r.bins_per_block) part (omega (arith, long, in_block)),
            long,
          )
          refl

  -- Every bin of the table is read back as its bytes in the file.
  pub read_bin_lem :
      (bin_id : ℕ)
      → bin_id < total
      → read_bin r bin_id ≡ ok (slice (r.table.data_offset + bin_id * bin) bin r.mmap)
  unfolding read_bin
  read_bin_lem bin_id lt =
      let b : ℕ = bin_id / r.bins_per_block in
      let j : ℕ = bin_id % r.bins_per_block in
      let split : b * r.bins_per_block + j ≡ bin_id = div-add-mod' bin_id r.bins_per_block in
      let small : j < r.bins_per_block = mod-lt bin_id v.some_bins in
      let in_blocks : b < r.logical_blocks =
        rw (v.blocks_are)
          (block-lt b r.bins_per_block total v.some_bins (omega (arith, split, lt))) in
      let here : j < count b in_blocks = omega (arith, split, small, lt) in
      let ends : j * bin + bin ≤ count b in_blocks * bin =
        omega (arith, mul-le-mul_right bin here) in
      let part : List ℕ = slice (offset b in_blocks) (count b in_blocks * bin) r.mmap in
      let long : length part ≡ count b in_blocks * bin = omega (
        arith,
        length-take (count b in_blocks * bin) (drop (offset b in_blocks) r.mmap),
        length-drop (offset b in_blocks) r.mmap,
        in_file b in_blocks,
      ) in
      let word_is : word (j * bin) ≡ j * bin =
        mod-eq_of_lt (omega (arith, ends, in_file b in_blocks, v.length_fits)) in
      let place : offset b in_blocks + j * bin ≡ r.table.data_offset + bin_id * bin =
        omega (arith, ap (λ k. k * bin) split, add-mul (b * r.bins_per_block) j bin) in
      rw
        (
          bin_size_is,
          total_bins_is,
          located total r.bins_per_block bin bin_id v.some_bins v.bin_pos lt,
          read_block_lem b in_blocks,
          word_is,
          cut_ok (part ++ replicate (bin * r.bins_per_block - count b in_blocks * bin) 0) (j * bin)
              bin
              (omega (
                arith,
                length-append part (replicate (bin * r.bins_per_block - count b in_blocks * bin) 0),
                long,
                ends,
              )),
        )
        (ap ok (
          slice-front (j * bin) bin part _ (omega (arith, long, ends))
          ∙ (slice-take (j * bin) bin (count b in_blocks * bin) (drop (offset b in_blocks) r.mmap)
                ends
              ∙ (ap (take bin) (drop-drop (offset b in_blocks) (j * bin) r.mmap)
                  ∙ ap (λ k. slice k bin r.mmap) place))))
