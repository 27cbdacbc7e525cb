-- ===== src/Gpt/Pair.antt =====
-- `parse_gpt_pair` of scripts/capture-recovery-baseline.py.
pub mod Sound
pub mod Mirror
pub mod Whole
use oukitel_rt7_linux.Prelude.{
  ℕ, ◌+◌, ◌*◌, Bool, ◌||◌, not, [], ◌∷◌, length, ◌==◌, ◌!=◌, nat_eq, list_eq, ok, ◌>>=◌, ◌>>◌,
  raise_if, if◌then◌else◌,
}
use oukitel_rt7_linux.Prelude.Int.{ℤ, pos, ◌+ℤ◌, ◌-ℤ◌, ◌*ℤ◌, int_eq}
use oukitel_rt7_linux.Python.Text.{Text, text, hex}
use oukitel_rt7_linux.Python.Bytes.{Bytes, slice}
use oukitel_rt7_linux.Python.Dict.{dict_beq}
use oukitel_rt7_linux.Gpt.Defs.{
  GptHeader, GptInfo, GptError, Parsed, Partitions, PartitionInfo, info_eq, efi_part,
  no_primary_signature, bad_protective_mbr, primary_not_at_lba1, wrong_primary_span,
  wrong_backup_span, headers_disagree, pointers_not_mirrored, arrays_differ,
}
use oukitel_rt7_linux.Gpt.Header.{parse_gpt_header}
use oukitel_rt7_linux.Gpt.Entries.{parse_gpt_entries}

-- The first of the two sector sizes at which the signature stands, or 0.
unfoldable pub find_sector_size : Bytes → ℕ
find_sector_size primary =
    if slice 0x200 (0x200 + 8) primary == efi_part
    then 0x200
    else if slice 0x1000 (0x1000 + 8) primary == efi_part
    then 0x1000
    else 0

unfoldable pub backup_sectors : GptHeader → ℤ
backup_sectors primary_header = pos primary_header.first_usable_lba -ℤ pos 1

unfoldable pub backup_start_lba : GptHeader → ℤ
unfolding backup_sectors
backup_start_lba primary_header =
    pos primary_header.backup_lba -ℤ backup_sectors primary_header +ℤ pos 1

unfoldable pub backup_header_offset : GptHeader → ℕ → ℤ
unfolding backup_start_lba
backup_header_offset primary_header sector_size =
    (pos primary_header.backup_lba -ℤ backup_start_lba primary_header) *ℤ sector_size

-- From the size of the backup span to its header.
unfoldable pub read_backup_header : Bytes → GptHeader → ℕ → Parsed GptHeader
unfolding backup_sectors backup_header_offset
read_backup_header backup primary_header sector_size = do
  raise_if (pos (length backup) != backup_sectors primary_header *ℤ sector_size)
      (wrong_backup_span (length backup) (backup_sectors primary_header *ℤ sector_size))
  parse_gpt_header backup (backup_header_offset primary_header sector_size) (text "backup")

-- From the sector size to the primary header and its span.
unfoldable pub read_primary_header : Bytes → ℕ → Parsed GptHeader
read_primary_header primary sector_size = do
  raise_if (sector_size == 0) no_primary_signature
  raise_if (slice 0x1FE 0x200 primary != 0x55 ∷ 0xAA ∷ []) bad_protective_mbr
  primary_header ← parse_gpt_header primary (pos sector_size) (text "primary")
  raise_if (primary_header.current_lba != 1) primary_not_at_lba1
  raise_if (length primary != primary_header.first_usable_lba * sector_size)
      (wrong_primary_span (length primary) (primary_header.first_usable_lba * sector_size))
  ok primary_header

-- `any(primary_header[field] != backup_header[field] for field in mirrored_fields)`
unfoldable pub differ_in_mirrored_fields : GptHeader → GptHeader → Bool
differ_in_mirrored_fields a b =
    a.first_usable_lba != b.first_usable_lba
    || a.last_usable_lba != b.last_usable_lba
    || a.disk_guid != b.disk_guid
    || a.num_partition_entries != b.num_partition_entries
    || a.partition_entry_size != b.partition_entry_size
    || a.partition_entry_crc32 != b.partition_entry_crc32

unfoldable pub check_mirrored : GptHeader → GptHeader → Parsed (Unit {0})
unfolding differ_in_mirrored_fields
check_mirrored primary_header backup_header = do
  raise_if (differ_in_mirrored_fields primary_header backup_header) headers_disagree
  raise_if
      (backup_header.current_lba != primary_header.backup_lba
        || backup_header.backup_lba != primary_header.current_lba)
      pointers_not_mirrored

-- The two entry arrays, and the comparison of what they hold.
unfoldable pub read_tables : Bytes → Bytes → GptHeader → GptHeader → ℕ → Parsed Partitions
unfolding dict_beq
read_tables primary backup primary_header backup_header sector_size = do
  (primary_entries, primary_partitions) ←
      parse_gpt_entries primary primary_header (pos 0) sector_size (text "primary")
  (backup_entries, backup_partitions) ←
      parse_gpt_entries backup backup_header (backup_start_lba primary_header) sector_size
        (text "backup")
  raise_if
      (primary_entries != backup_entries || not (dict_beq primary_partitions backup_partitions))
      arrays_differ
  ok primary_partitions

unfoldable pub parse_gpt_pair : Bytes → Bytes → Parsed GptInfo
unfolding find_sector_size read_primary_header read_backup_header check_mirrored read_tables
parse_gpt_pair primary backup = do
  let sector_size = find_sector_size primary
  primary_header ← read_primary_header primary sector_size
  backup_header ← read_backup_header backup primary_header sector_size
  check_mirrored primary_header backup_header
  partitions ← read_tables primary backup primary_header backup_header sector_size
  ok (record {
    sector_size = sector_size;
    disk_guid = hex primary_header.disk_guid;
    primary_lba = primary_header.current_lba;
    backup_lba = primary_header.backup_lba;
    first_usable_lba = primary_header.first_usable_lba;
    last_usable_lba = primary_header.last_usable_lba;
    partitions = partitions;
  })
