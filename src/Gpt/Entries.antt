-- ===== src/Gpt/Entries.antt =====
-- `parse_gpt_entries` of scripts/capture-recovery-baseline.py.
pub mod Slots
pub mod Sound
use mathlib.Core.Option
use oukitel_rt7_linux.Prelude.{
  ℕ, zero, suc, ◌+◌, ◌-◌, ◌*◌, ◌%◌, ◌||◌, ◌&&◌, not, Bool, List, [], ◌∷◌, ◌++◌, Option, none, some,
  length, take, drop, replicate, ltb, leb, ◌==◌, ◌!=◌, nat_eq, list_eq, contains, ok, err, ◌>>=◌,
  ◌>>◌, raise_if, if◌then◌else◌,
}
use oukitel_rt7_linux.Prelude.Int.{ℤ, pos, negsuc, ◌-ℤ◌, ◌*ℤ◌}
use oukitel_rt7_linux.Python.Text.{Text, before_nul}
use oukitel_rt7_linux.Python.Bytes.{Bytes, slice}
use oukitel_rt7_linux.Python.Struct.{uint64, unpack}
use oukitel_rt7_linux.Python.Utf16.{decode_utf16_le}
use oukitel_rt7_linux.Python.Dict.{keys}
use oukitel_rt7_linux.Gpt.Defs.{
  GptHeader, GptError, Parsed, Partitions, PartitionInfo, invalid_lba_range, outside_usable,
  invalid_name, empty_or_duplicate_name, bad_geometry, entries_outside_span, entries_crc_mismatch,
}
use oukitel_rt7_linux.Gpt.Header.{masked_crc32}

-- `first_lba, last_lba = struct.unpack_from("<QQ", entry, 32)`
unfoldable pub entry_first : Bytes → ℕ
entry_first entry = (unpack (uint64 ∷ uint64 ∷ []) (drop 32 entry)).0

unfoldable pub entry_last : Bytes → ℕ
entry_last entry = (unpack (uint64 ∷ uint64 ∷ []) (drop 32 entry)).1.0

-- `entry[56:128].decode("utf-16-le").split("\0", 1)[0]`
unfoldable pub entry_name : Bytes → Option Text
entry_name entry = Option.map before_nul (decode_utf16_le (slice 56 128 entry))

-- `entry[:16] == bytes(16)`
unfoldable pub is_unused : Bytes → Bool
is_unused entry = take 16 entry == replicate 16 0

unfoldable pub add_named : ℕ → Text → ℕ → Bytes → Option Text → Partitions → Parsed Partitions
add_named sector_size label index entry none partitions = err (invalid_name label index)
add_named sector_size label index entry (some name) partitions = do
  raise_if (name == [] || contains (keys partitions) name) (empty_or_duplicate_name label index)
  ok (
      partitions
      ++ (
        name,
        record {
          first_lba = entry_first entry;
          last_lba = entry_last entry;
          size = (entry_last entry - entry_first entry + 1) * sector_size;
        },
      )
        ∷ [])

-- The body of the loop for a slot that is in use.
unfoldable pub add_entry : GptHeader → ℕ → Text → ℕ → Bytes → Partitions → Parsed Partitions
unfolding add_named
add_entry header sector_size label index entry partitions = do
  raise_if (ltb (entry_last entry) (entry_first entry)) (invalid_lba_range label index)
  raise_if
      (not (
        leb header.first_usable_lba (entry_first entry)
        && leb (entry_first entry) (entry_last entry)
        && leb (entry_last entry) header.last_usable_lba))
      (outside_usable label index)
  add_named sector_size label index entry (entry_name entry) partitions

unfoldable pub read_slot : GptHeader → ℕ → Text → ℕ → Bytes → Partitions → Parsed Partitions
unfolding is_unused add_entry
read_slot header sector_size label index entry partitions =
    if is_unused entry
    then ok partitions
    else add_entry header sector_size label index entry partitions

-- `raw_entries[index * entry_size : (index + 1) * entry_size]`
unfoldable pub slot : Bytes → ℕ → ℕ → Bytes
slot raw_entries entry_size index =
    slice (index * entry_size) ((index + 1) * entry_size) raw_entries

-- The loop over `range(count)`, with the rounds left and the index reached.
unfoldable pub read_slots : GptHeader → ℕ → Text → Bytes → ℕ → ℕ → Partitions → Parsed Partitions
unfolding read_slot slot
read_slots header sector_size label raw_entries zero index partitions = ok partitions
read_slots header sector_size label raw_entries (suc left) index partitions = do
  more ←
      read_slot header sector_size label index (slot raw_entries header.partition_entry_size index)
        partitions
  read_slots header sector_size label raw_entries left (index + 1) more

-- `length` of the entry array.
unfoldable pub entries_length : GptHeader → ℕ
entries_length header = header.num_partition_entries * header.partition_entry_size

unfoldable pub read_entries : Bytes → GptHeader → ℤ → ℕ → Text → Parsed (Bytes × Partitions)
unfolding read_slots entries_length
read_entries bytes header (negsuc _) sector_size label = err (entries_outside_span label)
read_entries bytes header (pos offset) sector_size label = do
  raise_if (ltb (length bytes) (offset + entries_length header)) (entries_outside_span label)
  let raw_entries = slice offset (offset + entries_length header) bytes
  let actual_crc = masked_crc32 raw_entries
  raise_if (actual_crc != header.partition_entry_crc32)
      (entries_crc_mismatch label actual_crc header.partition_entry_crc32)
  partitions ← read_slots header sector_size label raw_entries header.num_partition_entries 0 []
  ok (raw_entries, partitions)

-- `(partition_entry_start_lba - capture_start_lba) * sector_size`
unfoldable pub entries_offset : GptHeader → ℤ → ℕ → ℤ
entries_offset header capture_start_lba sector_size =
    (pos header.partition_entry_start_lba -ℤ capture_start_lba) *ℤ sector_size

unfoldable pub parse_gpt_entries : Bytes → GptHeader → ℤ → ℕ → Text → Parsed (Bytes × Partitions)
unfolding read_entries entries_offset
parse_gpt_entries bytes header capture_start_lba sector_size label = do
  raise_if
      (leb header.num_partition_entries 0
        || ltb 4096 header.num_partition_entries
        || ltb header.partition_entry_size 128
        || header.partition_entry_size % 8 != 0)
      (bad_geometry label)
  read_entries bytes header (entries_offset header capture_start_lba sector_size) sector_size label
