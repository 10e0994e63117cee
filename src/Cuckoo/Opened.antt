-- ===== src/Cuckoo/Opened.antt =====
-- src/cuckoo.rs: from a table file to its bins.
use native.Mathlib.Nat.{mod-eq_of_lt, mul_assoc, mul-le-mul_left, mul-le-mul_right}
use oram.Base.{
  ℕ, ◌+◌, ◌*◌, ◌^◌, ◌<◌, ◌≡◌, refl, sym, ap, ◌∙◌, not, ◌==◌, ==→eq, ltb, List, length, arith,
}
use oram.Base.Bytes.{slice, from_le_bytes}
use oram.Outcome.{Error, ok, invalid_input, io, reject_if}
use oram.Outcome.Steps.{Steps-of, ok_inj}
use oram.Merkle.Hashes.{passes}
use oram.Cuckoo.{
  CuckooLevel, index_level, chunk_level, CuckooTableInfo, word, slot_size, base_header_size,
  bin_size, total_bins, table_byte_size, expected_file_bytes, validate, parse_anchor_kind,
  header_info, from_file,
}
use oram.Cuckoo.Reader.{CuckooPackedBlockReader, div_ceil, open_reader, read_bin}
use oram.Cuckoo.Packing.{IsWholeTable, read_bin_lem}

-- The numbers of a table that `validate` lets through.
pub record IsValidated (t : CuckooTableInfo) : Type 0 where
  pub k_pos : 0 < t.k
  pub slots_pos : 0 < t.slots_per_bin
  pub bins_pos : 0 < t.bins_per_table
  pub hashes_pos : 0 < t.num_hashes
  pub length_is : t.file_bytes ≡ expected_file_bytes t

refused_zero : (n : ℕ) (e : Error) {done : Unit {0}} → reject_if (n == 0) e ≡ ok done → 0 < n
refused_zero n e h = ground arith

pub validate-IsValidated :
    (t : CuckooTableInfo) {done : Unit {0}} → validate t ≡ ok done → IsValidated t
unfolding validate
validate-IsValidated t h =
    let k = Steps-of (reject_if (t.k == 0) invalid_input) _ h in
    let s = Steps-of (reject_if (t.slots_per_bin == 0) invalid_input) _ k.rest in
    let b = Steps-of (reject_if (t.bins_per_table == 0) invalid_input) _ s.rest in
    let n = Steps-of (reject_if (t.num_hashes == 0) invalid_input) _ b.rest in
    let l =
      Steps-of (reject_if (not (t.file_bytes == expected_file_bytes t)) invalid_input) _ n.rest in
    record {
      k_pos = refused_zero t.k invalid_input k.first;
      slots_pos = refused_zero t.slots_per_bin invalid_input s.first;
      bins_pos = refused_zero t.bins_per_table invalid_input b.first;
      hashes_pos = refused_zero t.num_hashes invalid_input n.first;
      length_is = ==→eq _ _ (passes _ _ l.first);
    }

-- What the header of a file says is what the table says.
pub record IsParsed (level : CuckooLevel) (file : List ℕ) (t : CuckooTableInfo) : Type 0 where
  pub validated : IsValidated t
  pub bytes_are : t.file_bytes ≡ length file
  pub slot_is : t.slot_bytes ≡ slot_size level

from_file-IsParsed :
    (level : CuckooLevel) (file : List ℕ) {t : CuckooTableInfo}
    → from_file level file ≡ ok t
    → IsParsed level file t
unfolding from_file
from_file-IsParsed level file h =
    let long = Steps-of (reject_if (ltb (length file) (base_header_size level)) io) _ h in
    let kind = Steps-of (parse_anchor_kind level (from_le_bytes (slice 0 8 file))) _ long.rest in
    let valid = Steps-of (validate (header_info level file kind.value)) _ kind.rest in
    let is = ok_inj valid.rest in
    rw (← is)
      (record { validated = validate-IsValidated _ valid.first; bytes_are = refl; slot_is = refl })

slot_size-pos : (level : CuckooLevel) → 0 < slot_size level
slot_size-pos index_level = omega arith
slot_size-pos chunk_level = omega arith

mul-pos : (a b : ℕ) → 0 < a → 0 < b → 0 < a * b
mul-pos a b p q = grind arith

module _ (t : CuckooTableInfo) (v : IsValidated t) (slot_pos : 0 < t.slot_bytes)
    (fits : t.data_offset + t.k * t.bins_per_table * (t.slots_per_bin * t.slot_bytes)
      < 2 ^ 64) where
  total_pos : 0 < t.k * t.bins_per_table
  total_pos = mul-pos t.k t.bins_per_table v.k_pos v.bins_pos

  bin_pos : 0 < t.slots_per_bin * t.slot_bytes
  bin_pos = mul-pos t.slots_per_bin t.slot_bytes v.slots_pos slot_pos

  bin_size_is : bin_size t ≡ t.slots_per_bin * t.slot_bytes
  unfolding bin_size
  bin_size_is =
      mod-eq_of_lt
        (omega (arith, mul-le-mul_right (t.slots_per_bin * t.slot_bytes) total_pos, fits))

  total_bins_is : total_bins t ≡ t.k * t.bins_per_table
  unfolding total_bins
  total_bins_is =
      mod-eq_of_lt (omega (arith, mul-le-mul_left (t.k * t.bins_per_table) bin_pos, fits))

  expected_is :
      expected_file_bytes t
      ≡ t.data_offset + t.k * t.bins_per_table * (t.slots_per_bin * t.slot_bytes)
  unfolding expected_file_bytes table_byte_size
  expected_is =
      let b : ℕ = t.slots_per_bin * t.slot_bytes in
      let all : t.k * (t.bins_per_table * b) ≡ t.k * t.bins_per_table * b =
        sym (mul_assoc t.k t.bins_per_table b) in
      let one : word (t.bins_per_table * b) ≡ t.bins_per_table * b =
        mod-eq_of_lt (omega (arith, mul-le-mul_right (t.bins_per_table * b) v.k_pos, all, fits)) in
      let two : word (t.k * t.bins_per_table * b) ≡ t.k * t.bins_per_table * b =
        mod-eq_of_lt (omega (arith, fits)) in
      rw (bin_size_is, one, all, two) (mod-eq_of_lt fits)

-- A file that is parsed and opened, where no size passes a word of 64 bits.
module _ (level : CuckooLevel) (file : List ℕ) (t : CuckooTableInfo)
    (parsed : from_file level file ≡ ok t) (n : ℕ) (r : CuckooPackedBlockReader)
    (opened : open_reader t n file ≡ ok r)
    (file_fits : t.data_offset + t.k * t.bins_per_table * (t.slots_per_bin * t.slot_bytes) < 2 ^ 64)
    (block_fits : t.slots_per_bin * t.slot_bytes * n < 2 ^ 64) where
  abbrev pub total : ℕ
  total = t.k * t.bins_per_table

  abbrev pub bin : ℕ
  bin = t.slots_per_bin * t.slot_bytes

  pub opened-IsWholeTable : IsWholeTable r total bin
  unfolding open_reader
  opened-IsWholeTable =
      let p = from_file-IsParsed level file parsed in
      let v = p.validated in
      let slot_pos : 0 < t.slot_bytes = rw (p.slot_is) (slot_size-pos level) in
      let some = Steps-of (reject_if (n == 0) invalid_input) _ opened in
      let is = ok_inj some.rest in
      rw (← is) (record {
        total_is = refl;
        bin_is = refl;
        length_is = sym p.bytes_are ∙ (v.length_is ∙ expected_is t v slot_pos file_fits);
        length_fits =
            rw (sym p.bytes_are ∙ (v.length_is ∙ expected_is t v slot_pos file_fits)) file_fits;
        total_pos = total_pos t v slot_pos file_fits;
        bin_pos = bin_pos t v slot_pos file_fits;
        some_bins = refused_zero n invalid_input some.first;
        block_fits = block_fits;
        blocks_are = ap (λ x. div_ceil x n) (total_bins_is t v slot_pos file_fits);
        payload_is =
            ap (λ x. word (x * n)) (bin_size_is t v slot_pos file_fits) ∙ mod-eq_of_lt block_fits;
      })

  -- When a table file is parsed and opened, and neither the file that its header announces nor a
  -- block passes a word of 64 bits, every bin of the table is read through its packed block as its
  -- own bytes of the file.
  pub opened_read_bin :
      (bin_id : ℕ)
      → bin_id < total
      → read_bin r bin_id ≡ ok (slice (t.data_offset + bin_id * bin) bin file)
  unfolding open_reader
  opened_read_bin bin_id lt =
      let some = Steps-of (reject_if (n == 0) invalid_input) _ opened in
      let is = ok_inj some.rest in
      read_bin_lem r total bin opened-IsWholeTable bin_id lt
      ∙ ap (λ q. ok (slice (q.table.data_offset + bin_id * bin) bin q.mmap)) (sym is)
