-- ===== src/Gpt/Defs.antt =====
-- The data of the GPT parser in scripts/capture-recovery-baseline.py: the header, the table of
-- partitions, and the errors, which carry what their messages print.
use oukitel_rt7_linux.Prelude.{
  ℕ, ◌≡◌, ◌↔◌, Bool, true, ◌&&◌, List, [], ◌∷◌, arith, Eq, nat_beq, Result,
}
use oukitel_rt7_linux.Prelude.Int.{ℤ}
use oukitel_rt7_linux.Python.Text.{Text, text}
use oukitel_rt7_linux.Python.Bytes.{Bytes}
use oukitel_rt7_linux.Python.Struct.{Code, chars, uint32, uint64, Values, size}
use oukitel_rt7_linux.Python.Dict.{Dict}

-- GPT_HEADER = struct.Struct("<8sIIIIQQQQ16sQIII")
abbrev pub gpt_header_format : List Code
gpt_header_format =
    chars 8
    ∷ uint32
    ∷ uint32
    ∷ uint32
    ∷ uint32
    ∷ uint64
    ∷ uint64
    ∷ uint64
    ∷ uint64
    ∷ chars 16
    ∷ uint64
    ∷ uint32
    ∷ uint32
    ∷ uint32
    ∷ []

abbrev pub gpt_header_size : ℕ
gpt_header_size = size gpt_header_format

abbrev pub efi_part : Bytes
efi_part = text "EFI PART"

pub record GptHeader : Type 0 where
  pub signature : Bytes
  pub revision : ℕ
  pub header_size : ℕ
  pub header_crc32 : ℕ
  pub reserved : ℕ
  pub current_lba : ℕ
  pub backup_lba : ℕ
  pub first_usable_lba : ℕ
  pub last_usable_lba : ℕ
  pub disk_guid : Bytes
  pub partition_entry_start_lba : ℕ
  pub num_partition_entries : ℕ
  pub partition_entry_size : ℕ
  pub partition_entry_crc32 : ℕ

-- `dict(zip(keys, values, strict=True))`
abbrev pub header_of_values : Values gpt_header_format → GptHeader
header_of_values
      (
        sig,
        (
          rev,
          (
            len,
            (crc, (res, (cur, (bak, (fst, (lst, (guid, (start, (num, (esize, (ecrc, _))))))))))),
          ),
        ),
      ) =
    record {
      signature = sig;
      revision = rev;
      header_size = len;
      header_crc32 = crc;
      reserved = res;
      current_lba = cur;
      backup_lba = bak;
      first_usable_lba = fst;
      last_usable_lba = lst;
      disk_guid = guid;
      partition_entry_start_lba = start;
      num_partition_entries = num;
      partition_entry_size = esize;
      partition_entry_crc32 = ecrc;
    }

-- The values of one partition in the result of `parse_gpt_entries`.
pub record PartitionInfo : Type 0 where
  pub first_lba : ℕ
  pub last_lba : ℕ
  pub size : ℕ

abbrev pub info_beq : PartitionInfo → PartitionInfo → Bool
info_beq a b =
    nat_beq a.first_lba b.first_lba && (nat_beq a.last_lba b.last_lba && nat_beq a.size b.size)

pub info_beq_iff : (a b : PartitionInfo) → (info_beq a b ≡ true) ↔ (a ≡ b)
info_beq_iff a b = ground arith

instance abbrev pub info_eq : Eq PartitionInfo
info_eq = record { beq = info_beq; beq_iff = info_beq_iff }

abbrev pub Partitions : Type 0
Partitions = Dict Text PartitionInfo

-- What `parse_gpt_pair` returns.
pub record GptInfo : Type 0 where
  pub sector_size : ℕ
  pub disk_guid : Text
  pub primary_lba : ℕ
  pub backup_lba : ℕ
  pub first_usable_lba : ℕ
  pub last_usable_lba : ℕ
  pub partitions : Partitions

-- The `ValueError`s, with the label, the index and the numbers of their messages.
pub data GptError : Type 0 where
  header_outside_span bad_signature unsupported_revision bad_header_size : Text → GptError
  nonzero_reserved bad_geometry entries_outside_span : Text → GptError
  header_crc_mismatch entries_crc_mismatch : Text → ℕ → ℕ → GptError
  invalid_lba_range outside_usable invalid_name empty_or_duplicate_name : Text → ℕ → GptError
  no_primary_signature bad_protective_mbr primary_not_at_lba1 : GptError
  wrong_primary_span : ℕ → ℕ → GptError
  wrong_backup_span : ℕ → ℤ → GptError
  headers_disagree pointers_not_mirrored arrays_differ : GptError

abbrev pub Parsed : Type 0 → Type 0
Parsed A = Result GptError A
