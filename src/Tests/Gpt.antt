-- ===== src/Tests/Gpt.antt =====
-- The GPT parser on a small disk.
use oukitel_rt7_linux.Prelude.{
  ◌≡◌, refl, [], ◌∷◌, ◌++◌, length, ok, contains, list_beq, list_eq, nat_eq, arith,
}
use oukitel_rt7_linux.Prelude.Int.{pos, ◌+ℤ◌, ◌-ℤ◌, ◌*ℤ◌}
use oukitel_rt7_linux.Python.Text.{text, before_nul, hex}
use oukitel_rt7_linux.Python.Bytes.{Bytes, slice, from_le}
use oukitel_rt7_linux.Python.Struct.{unpack}
use oukitel_rt7_linux.Python.Crc32.{crc32}
use oukitel_rt7_linux.Python.Utf16.{decode_utf16_le}
use oukitel_rt7_linux.Python.Dict.{keys, lookup, NodupKeys}
use oukitel_rt7_linux.Gpt.Defs.{GptHeader, GptInfo, Parsed}
use oukitel_rt7_linux.Gpt.Header.{header_crc, parse_gpt_header}
use oukitel_rt7_linux.Gpt.Entries.{
  entry_first, entry_last, entry_name, read_slots, entries_offset, parse_gpt_entries,
}
use oukitel_rt7_linux.Gpt.Pair.{parse_gpt_pair}
use oukitel_rt7_linux.Gpt.Pair.Whole.{IsPair, parse_gpt_pair_iff}
use oukitel_rt7_linux.Gpt.Header.Sound.{IsHeader, parse_gpt_header_iff}
use oukitel_rt7_linux.Gpt.Header.Accepts.{pack_header, IsSealed, parse_gpt_header-pack_header}
use oukitel_rt7_linux.Gpt.Entries.Slots.{Lists, used_slots, read_slots_iff}
use oukitel_rt7_linux.Gpt.Entries.Sound.{IsTable, parse_gpt_entries_iff}
use oukitel_rt7_linux.Tests.Disk.{entry, header, primary, backup, info}

unfoldable pub parse : Bytes → Bytes → Parsed GptInfo
unfolding parse_gpt_pair parse_gpt_header parse_gpt_entries header_crc crc32 slice list_beq unpack
    from_le entry_first entry_last entry_name decode_utf16_le before_nul hex contains keys lookup
    ◌+ℤ◌ ◌-ℤ◌ ◌*ℤ◌ primary backup
parse = parse_gpt_pair

parse_runs : parse_gpt_pair primary backup ≡ ok info
unfolding parse
parse_runs = refl

parse_gpt_pair_iff_example : IsPair primary backup info
parse_gpt_pair_iff_example = (parse_gpt_pair_iff primary backup info).0 parse_runs

-- The theorems on headers, slots and tables, at the primary span.
abbrev primary_header : GptHeader
primary_header = header 1 12 2

header_runs : parse_gpt_header primary (pos 512) (text "primary") ≡ ok primary_header
unfolding parse header
header_runs = refl

parse_gpt_header_iff_example : IsHeader primary 512 primary_header
parse_gpt_header_iff_example =
    (parse_gpt_header_iff primary 512 (text "primary") primary_header).0 header_runs

tables_run :
    parse_gpt_entries primary primary_header (pos 0) 512 (text "primary")
    ≡ ok (entry, info.partitions)
unfolding parse header entry
tables_run = refl

parse_gpt_entries_iff_example :
    IsTable primary primary_header
      (entries_offset primary_header (pos 0) 512)
      512
      entry
      info.partitions
parse_gpt_entries_iff_example =
    (parse_gpt_entries_iff primary primary_header 512 (text "primary") entry info.partitions
        (pos 0)).0
      tables_run

slots_run :
    read_slots primary_header 512 (text "primary") entry primary_header.num_partition_entries 0 []
    ≡ ok info.partitions
unfolding parse header entry read_slots
slots_run = refl

read_slots_iff_example :
    Lists primary_header 512
      (used_slots entry primary_header.partition_entry_size primary_header.num_partition_entries 0)
      info.partitions
    × NodupKeys info.partitions
read_slots_iff_example =
    (read_slots_iff primary_header 512 (text "primary") entry info.partitions).0 slots_run

sealed : IsSealed primary_header
unfolding parse header
sealed = record {
  fits = (
    refl,
    (
      omega arith,
      (
        omega arith,
        (
          omega arith,
          (
            omega arith,
            (
              omega arith,
              (
                omega arith,
                (
                  omega arith,
                  (
                    omega arith,
                    (refl, (omega arith, (omega arith, (omega arith, (omega arith, tt))))),
                  ),
                ),
              ),
            ),
          ),
        ),
      ),
    ),
  );
  signed = refl;
  version = refl;
  sized = refl;
  unreserved = refl;
  summed = refl;
}

abbrev one : Bytes
one = 1 ∷ []

parse_gpt_header-pack_header_example :
    parse_gpt_header
      (one ++ (pack_header primary_header ++ (2 ∷ [])))
      (pos (length one))
      (text "primary")
    ≡ ok primary_header
parse_gpt_header-pack_header_example =
    parse_gpt_header-pack_header one (2 ∷ []) (text "primary") primary_header sealed
