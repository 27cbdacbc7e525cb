-- ===== src/Gpt/Entries/Sound.antt =====
-- `parse_gpt_entries` accepts exactly the partition tables that its checks describe.
use oukitel_rt7_linux.Prelude.{
  ℕ, ◌+◌, ◌%◌, ◌≤◌, ◌<◌, ◌≡◌, refl, sym, ◌↔◌, true, false, arith, ok, length, ltb, nat_eq, list_eq,
  nat_beq, [],
}
use oukitel_rt7_linux.Prelude.Int.{ℤ, pos, negsuc}
use oukitel_rt7_linux.Python.Text.{Text}
use oukitel_rt7_linux.Python.Bytes.{Bytes, slice}
use oukitel_rt7_linux.Python.Dict.{NodupKeys}
use oukitel_rt7_linux.Gpt.Defs.{GptHeader, Partitions}
use oukitel_rt7_linux.Gpt.Header.{masked_crc32}
use oukitel_rt7_linux.Gpt.Entries.{
  read_slots, entries_length, entries_offset, read_entries, parse_gpt_entries,
}
use oukitel_rt7_linux.Gpt.Entries.Slots.{Lists, used_slots, read_slots_iff}

-- The table `partitions` in the entry array `raw_entries`, which stands in the captured bytes.
pub record IsTable (bytes : Bytes) (header : GptHeader) (offset : ℤ) (sector_size : ℕ)
    (raw_entries : Bytes) (partitions : Partitions) : Type 0 where
  pub some_entries : 0 < header.num_partition_entries
  pub few_entries : header.num_partition_entries ≤ 4096
  pub wide_entries : 128 ≤ header.partition_entry_size
  pub aligned : header.partition_entry_size % 8 ≡ 0
  pub start : ℕ
  pub starts : offset ≡ pos start
  pub inside : start + entries_length header ≤ length bytes
  pub cut : raw_entries ≡ slice start (start + entries_length header) bytes
  pub summed : header.partition_entry_crc32 ≡ masked_crc32 raw_entries
  pub listed :
      Lists header sector_size
        (used_slots raw_entries header.partition_entry_size header.num_partition_entries 0)
        partitions
  pub distinct : NodupKeys partitions

module _ (bytes : Bytes) (header : GptHeader) (sector_size : ℕ) (label : Text) (raw : Bytes)
    (partitions : Partitions) where
  read_entries-eq-ok :
      (start : ℕ)
      → read_entries bytes header (pos start) sector_size label ≡ ok (raw, partitions)
      → (start + entries_length header ≤ length bytes)
        × (raw ≡ slice start (start + entries_length header) bytes)
        × (header.partition_entry_crc32 ≡ masked_crc32 raw)
        × (read_slots header sector_size label raw header.num_partition_entries 0 []
            ≡ ok partitions)
  unfolding read_entries
  read_entries-eq-ok start h =
      let cut : raw ≡ slice start (start + entries_length header) bytes = ground arith in
      (ground arith, cut, rw cut (ground arith), rw cut (ground arith))

  checked_entries-IsTable :
      (offset : ℤ)
      → read_entries bytes header offset sector_size label ≡ ok (raw, partitions)
      → 0 < header.num_partition_entries
      → header.num_partition_entries ≤ 4096
      → 128 ≤ header.partition_entry_size
      → header.partition_entry_size % 8 ≡ 0
      → IsTable bytes header offset sector_size raw partitions
  checked_entries-IsTable (negsuc n) h a b c d = unfold read_entries in cc
  checked_entries-IsTable (pos start) h a b c d =
      let (inside, cut, summed, slots) = read_entries-eq-ok start h in
      let (listed, distinct) = (read_slots_iff header sector_size label raw partitions).0 slots in
      record {
        some_entries = a;
        few_entries = b;
        wide_entries = c;
        aligned = d;
        start = start;
        starts = refl;
        inside = inside;
        cut = cut;
        summed = summed;
        listed = listed;
        distinct = distinct;
      }

  IsTable-read_entries :
      (offset : ℤ)
      → IsTable bytes header offset sector_size raw partitions
      → read_entries bytes header offset sector_size label ≡ ok (raw, partitions)
  unfolding read_entries
  IsTable-read_entries offset v =
      let slots =
        (read_slots_iff header sector_size label raw partitions).1 (v.listed, v.distinct) in
      let same = sym v.cut in rw (v.starts) (rw (span_fits) (rw same (rw (summed) (rw slots refl))))
    where
      span_fits : ltb (length bytes) (v.start + entries_length header) ≡ false
      span_fits = ground (arith, v.inside)

      summed : nat_beq (masked_crc32 raw) header.partition_entry_crc32 ≡ true
      summed = ground (arith, v.summed)

  -- The entries are accepted, with the raw array and the partitions, exactly if the geometry is in
  -- its bounds, the array lies inside the captured bytes, its checksum is the stated one, and the
  -- partitions are those of the slots in use.
  pub parse_gpt_entries_iff :
      (capture_start_lba : ℤ)
      → (parse_gpt_entries bytes header capture_start_lba sector_size label ≡ ok (raw, partitions))
        ↔ IsTable bytes header
            (entries_offset header capture_start_lba sector_size)
            sector_size
            raw
            partitions
  unfolding parse_gpt_entries
  parse_gpt_entries_iff capture_start_lba = (
    λ h.
        checked_entries-IsTable (entries_offset header capture_start_lba sector_size) (ground arith)
          (ground arith) (ground arith) (ground arith) (ground arith),
    λ v.
        let read = IsTable-read_entries (entries_offset header capture_start_lba sector_size) v in
        ground (arith, v.some_entries, v.few_entries, v.wide_entries, v.aligned),
  )
