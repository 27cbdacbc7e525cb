-- ===== src/Gpt/Header.antt =====
-- `parse_gpt_header` of scripts/capture-recovery-baseline.py.
pub mod Sound
pub mod Accepts
use oukitel_rt7_linux.Prelude.{
  ℕ, ◌+◌, ◌%◌, ◌^◌, ◌||◌, ◌++◌, length, take, drop, replicate, ltb, ◌!=◌, nat_eq, list_eq, ok, err,
  ◌>>=◌, ◌>>◌, raise_if,
}
use oukitel_rt7_linux.Prelude.Int.{ℤ, pos, negsuc}
use oukitel_rt7_linux.Python.Text.{Text}
use oukitel_rt7_linux.Python.Bytes.{Bytes, slice}
use oukitel_rt7_linux.Python.Struct.{unpack}
use oukitel_rt7_linux.Python.Crc32.{crc32}
use oukitel_rt7_linux.Gpt.Defs.{
  GptHeader, GptError, Parsed, gpt_header_format, gpt_header_size, header_of_values, efi_part,
  header_outside_span, bad_signature, unsupported_revision, bad_header_size, nonzero_reserved,
  header_crc_mismatch,
}

-- `zlib.crc32(_) & 0xFFFFFFFF`
unfoldable pub masked_crc32 : Bytes → ℕ
masked_crc32 bytes = crc32 bytes % 2 ^ 32

-- `header_bytes[16:20] = b"\0\0\0\0"`
unfoldable pub clear_crc_field : Bytes → Bytes
clear_crc_field bytes = take 16 bytes ++ (replicate 4 0 ++ drop 20 bytes)

-- The checksum that the header at `offset` has to state.
unfoldable pub header_crc : Bytes → ℕ → ℕ → ℕ
unfolding masked_crc32 clear_crc_field
header_crc bytes offset header_size =
    masked_crc32 (clear_crc_field (slice offset (offset + header_size) bytes))

-- GPT_HEADER.unpack_from(data, offset)
unfoldable pub read_header : Bytes → ℕ → GptHeader
read_header bytes offset = header_of_values (unpack gpt_header_format (drop offset bytes))

-- The checks after the unpacking.
unfoldable pub check_header : Bytes → ℕ → Text → GptHeader → Parsed GptHeader
check_header bytes offset label header = do
  raise_if (header.signature != efi_part) (bad_signature label)
  raise_if (header.revision != 0x00010000) (unsupported_revision label)
  raise_if
      (ltb header.header_size gpt_header_size || ltb (length bytes) (offset + header.header_size))
      (bad_header_size label)
  raise_if (header.reserved != 0) (nonzero_reserved label)
  let actual_crc = header_crc bytes offset header.header_size
  raise_if (actual_crc != header.header_crc32)
      (header_crc_mismatch label actual_crc header.header_crc32)
  ok header

unfoldable pub parse_gpt_header : Bytes → ℤ → Text → Parsed GptHeader
unfolding check_header read_header
parse_gpt_header bytes (negsuc _) label = err (header_outside_span label)
parse_gpt_header bytes (pos offset) label = do
  raise_if (ltb (length bytes) (offset + gpt_header_size)) (header_outside_span label)
  check_header bytes offset label (read_header bytes offset)
