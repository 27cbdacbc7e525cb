-- ===== src/Tests/Disk.antt =====
-- A small disk: one entry of 128 bytes, three sectors before the first usable one.
use oukitel_rt7_linux.Prelude.{ℕ, ◌-◌, [], ◌∷◌, ◌++◌, length, replicate}
use mathlib.Core.List.{flat_map}
use oukitel_rt7_linux.Python.Text.{text}
use oukitel_rt7_linux.Python.Bytes.{Bytes, to_le}
use oukitel_rt7_linux.Python.Struct.{pack}
use oukitel_rt7_linux.Python.Crc32.{crc32}
use oukitel_rt7_linux.Gpt.Defs.{GptHeader, GptInfo, efi_part}
use oukitel_rt7_linux.Gpt.Header.{masked_crc32}
use oukitel_rt7_linux.Gpt.Header.Accepts.{pack_header}

-- Zeros up to a length.
abbrev pub padded : ℕ → Bytes → Bytes
padded n bytes = bytes ++ replicate (n - length bytes) 0

unfoldable pub entry : Bytes
unfolding flat_map to_le
entry = padded 128 (
    replicate 16 7
    ++ (replicate 16 9
        ++ (to_le 8 3
            ++ (to_le 8 6 ++ (replicate 8 0 ++ flat_map (λ c. c ∷ 0 ∷ []) (text "boot_a"))))))

unfoldable pub unsealed : ℕ → ℕ → ℕ → GptHeader
unfolding masked_crc32 crc32 entry
unsealed current other start = record {
  signature = efi_part;
  revision = 0x00010000;
  header_size = 92;
  header_crc32 = 0;
  reserved = 0;
  current_lba = current;
  backup_lba = other;
  first_usable_lba = 3;
  last_usable_lba = 9;
  disk_guid = replicate 16 0xAB;
  partition_entry_start_lba = start;
  num_partition_entries = 1;
  partition_entry_size = 128;
  partition_entry_crc32 = masked_crc32 entry;
}

unfoldable pub header : ℕ → ℕ → ℕ → GptHeader
unfolding unsealed pack_header pack
header current other start =
    let h = unsealed current other start in record h { header_crc32 = masked_crc32 (pack_header h) }

unfoldable pub primary : Bytes
unfolding header
primary =
    padded 510 [] ++ (0x55 ∷ 0xAA ∷ (padded 512 (pack_header (header 1 12 2)) ++ padded 512 entry))

unfoldable pub backup : Bytes
unfolding header
backup = padded 512 entry ++ padded 512 (pack_header (header 12 1 11))

abbrev pub info : GptInfo
info = record {
  sector_size = 512;
  disk_guid = text "abababababababababababababababab";
  primary_lba = 1;
  backup_lba = 12;
  first_usable_lba = 3;
  last_usable_lba = 9;
  partitions = (text "boot_a", record { first_lba = 3; last_lba = 6; size = 2048 }) ∷ [];
}
