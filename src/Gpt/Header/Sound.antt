-- ===== src/Gpt/Header/Sound.antt =====
-- What an accepted GPT header is.
use oukitel_rt7_linux.Prelude.{
  ℕ, ◌+◌, ◌≤◌, ◌≡◌, ok, arith, length, eq_of_beq, list_eq, nat_eq, list_beq_iff, ◌↔◌,
}
use oukitel_rt7_linux.Prelude.Int.{pos, negsuc}
use oukitel_rt7_linux.Python.Text.{Text}
use oukitel_rt7_linux.Python.Bytes.{Bytes}
use oukitel_rt7_linux.Gpt.Defs.{GptHeader, gpt_header_size, efi_part}
use oukitel_rt7_linux.Gpt.Header.{read_header, check_header, header_crc, parse_gpt_header}

-- The header of a GPT at `offset` of the captured bytes.
pub record IsHeader (bytes : Bytes) (offset : ℕ) (header : GptHeader) : Type 0 where
  pub is_read : header ≡ read_header bytes offset
  pub signed : header.signature ≡ efi_part
  pub version : header.revision ≡ 0x00010000
  pub at_least : gpt_header_size ≤ header.header_size
  pub inside : offset + header.header_size ≤ length bytes
  pub unreserved : header.reserved ≡ 0
  pub summed : header.header_crc32 ≡ header_crc bytes offset header.header_size

check_header-eq-ok :
    (bytes : Bytes) (offset : ℕ) (label : Text) (header h : GptHeader)
    → check_header bytes offset label header ≡ ok h
    → header ≡ read_header bytes offset
    → IsHeader bytes offset h
unfolding check_header
check_header-eq-ok bytes offset label header h e r =
    ground (arith, eq_of_beq header.signature efi_part)

check_header-IsHeader :
    (bytes : Bytes) (offset : ℕ) (label : Text) (header : GptHeader)
    → IsHeader bytes offset header
    → check_header bytes offset label header ≡ ok header
unfolding check_header
check_header-IsHeader bytes offset label header v =
    ground (arith, list_beq_iff header.signature efi_part, v.signed)

-- A header is accepted at an offset exactly if it stands there, has the signature, the revision,
-- a size from 92 bytes to the end of the data and no reserved value, and states the checksum of
-- its own bytes.
pub parse_gpt_header_iff :
    (bytes : Bytes) (offset : ℕ) (label : Text) (header : GptHeader)
    → (parse_gpt_header bytes (pos offset) label ≡ ok header) ↔ IsHeader bytes offset header
unfolding parse_gpt_header
parse_gpt_header_iff bytes offset label header = (
  λ h. ground (arith, check_header-eq-ok bytes offset label (read_header bytes offset) header),
  λ v.
      ground
        (arith, check_header-IsHeader bytes offset label header v, v.is_read, v.inside, v.at_least),
)

pub parse_gpt_header_before :
    (bytes : Bytes) (n : ℕ) (label : Text) (header : GptHeader)
    → ¬ (parse_gpt_header bytes (negsuc n) label ≡ ok header)
unfolding parse_gpt_header
parse_gpt_header_before bytes n label header h = cc
