-- ===== src/Gpt/Pair/Sound.antt =====
-- What an accepted pair of GPT spans is, step by step.
use oukitel_rt7_linux.Prelude.{
  ℕ, zero, suc, ◌+◌, ◌-◌, ◌*◌, ◌<◌, ◌≡◌, refl, ap, ◌↔◌, ◌⊎◌, arith, ok, length, nat_eq, list_eq,
  list_beq_iff, [], ◌∷◌, eq_of_beq,
}
use oukitel_rt7_linux.Prelude.Int.{pos, negsuc, ◌+ℤ◌, ◌-ℤ◌, ◌*ℤ◌, int_eq, int_beq_iff}
use oukitel_rt7_linux.Python.Text.{text}
use oukitel_rt7_linux.Python.Bytes.{Bytes, slice}
use oukitel_rt7_linux.Gpt.Defs.{GptHeader}
use oukitel_rt7_linux.Gpt.Header.{parse_gpt_header}
use oukitel_rt7_linux.Gpt.Header.Sound.{IsHeader, parse_gpt_header_iff, parse_gpt_header_before}
use oukitel_rt7_linux.Gpt.Pair.{
  find_sector_size, backup_sectors, backup_header_offset, read_backup_header, read_primary_header,
  check_mirrored,
}

pub find_sector_size_cases :
    (primary : Bytes)
    → (find_sector_size primary ≡ 0)
      ⊎ (find_sector_size primary ≡ 0x200)
      ⊎ (find_sector_size primary ≡ 0x1000)
unfolding find_sector_size
find_sector_size_cases primary = ground arith

pub record IsPrimary (primary : Bytes) (sector_size : ℕ) (header : GptHeader) : Type 0 where
  pub sector : 0 < sector_size
  pub protective_mbr : slice 0x1FE 0x200 primary ≡ 0x55 ∷ 0xAA ∷ []
  pub is_header : IsHeader primary sector_size header
  pub at_lba1 : header.current_lba ≡ 1
  pub span : length primary ≡ header.first_usable_lba * sector_size

pub read_primary_header-IsPrimary :
    (primary : Bytes) (sector_size : ℕ) (header : GptHeader)
    → read_primary_header primary sector_size ≡ ok header
    → IsPrimary primary sector_size header
unfolding read_primary_header
read_primary_header-IsPrimary primary sector_size header h =
    let read : parse_gpt_header primary (pos sector_size) (text "primary") ≡ ok header =
      ground arith in
    record {
      sector = ground arith;
      protective_mbr = ground (arith, eq_of_beq (slice 0x1FE 0x200 primary) (0x55 ∷ 0xAA ∷ []));
      is_header = (parse_gpt_header_iff primary sector_size (text "primary") header).0 read;
      at_lba1 = ground arith;
      span = ground arith;
    }

-- The backup header, in the last sector of its span.
pub record IsBackup (backup : Bytes) (primary_header : GptHeader) (sector_size : ℕ)
    (header : GptHeader) : Type 0 where
  pub offset : ℕ
  pub span : length backup + sector_size ≡ primary_header.first_usable_lba * sector_size
  pub last_sector : offset + sector_size ≡ length backup
  pub is_header : IsHeader backup offset header

pub backup_header_offset_lem :
    (header : GptHeader) (sector_size k : ℕ)
    → header.first_usable_lba ≡ k + 2
    → backup_header_offset header sector_size ≡ pos (k * sector_size)
unfolding backup_header_offset ◌+ℤ◌ ◌-ℤ◌ ◌*ℤ◌
backup_header_offset_lem header sector_size k h = ground arith

pub backup_sectors_lem : (n size : ℕ) → (pos (suc n) -ℤ pos 1) *ℤ size ≡ pos (n * size)
unfolding ◌-ℤ◌ ◌*ℤ◌
backup_sectors_lem n size = ground arith

no_sectors : (n size : ℕ) → 0 < size → ¬ (pos n ≡ (pos 0 -ℤ pos 1) *ℤ size)
unfolding ◌-ℤ◌ ◌*ℤ◌
no_sectors n size s h = ground arith

span_lem :
    (sectors size span : ℕ)
    → 0 < size
    → pos span ≡ (pos sectors -ℤ pos 1) *ℤ size
    → span + size ≡ sectors * size
span_lem zero size span s h = absurd (no_sectors span size s h)
span_lem (suc n) size span s h =
    let e : span ≡ n * size = ground (arith, backup_sectors_lem n size) in omega arith

-- With one sector before the first usable one the header would stand before its span.
backup_header_before :
    (header : GptHeader) (sector_size : ℕ)
    → 0 < sector_size
    → header.first_usable_lba ≡ 1
    → (n : ℕ) × (backup_header_offset header sector_size ≡ negsuc n)
unfolding backup_header_offset ◌+ℤ◌ ◌-ℤ◌ ◌*ℤ◌
backup_header_before header sector_size s h = (sector_size - 1, ground arith)

read_backup_header-eq-ok :
    (backup : Bytes) (primary_header : GptHeader) (sector_size : ℕ) (header : GptHeader)
    → 0 < sector_size
    → read_backup_header backup primary_header sector_size ≡ ok header
    → (length backup + sector_size ≡ primary_header.first_usable_lba * sector_size)
      × (parse_gpt_header backup (backup_header_offset primary_header sector_size) (text "backup")
          ≡ ok header)
read_backup_header-eq-ok backup primary_header sector_size header s h =
    let span : pos (length backup) ≡ backup_sectors primary_header *ℤ sector_size =
      unfold read_backup_header in
      ground
        (arith, int_beq_iff (pos (length backup)) (backup_sectors primary_header *ℤ sector_size)) in
    (
      span_lem primary_header.first_usable_lba sector_size (length backup) s
          (unfold backup_sectors in span),
      unfold read_backup_header in ground arith,
    )

pub read_backup_header-IsBackup :
    (backup : Bytes) (primary_header : GptHeader) (sector_size : ℕ) (header : GptHeader)
    → 0 < sector_size
    → read_backup_header backup primary_header sector_size ≡ ok header
    → IsBackup backup primary_header sector_size header
read_backup_header-IsBackup backup primary_header sector_size header s h =
    let (span, parsed) = read_backup_header-eq-ok backup primary_header sector_size header s h in
    by_sectors primary_header.first_usable_lba refl span parsed
  where
    by_sectors :
        (n : ℕ)
        → primary_header.first_usable_lba ≡ n
        → length backup + sector_size ≡ primary_header.first_usable_lba * sector_size
        → parse_gpt_header backup (backup_header_offset primary_header sector_size) (text "backup")
          ≡ ok header
        → IsBackup backup primary_header sector_size header
    by_sectors zero e span parsed = absurd (omega (arith, ap (λ (t : ℕ). t * sector_size) e))
    by_sectors (suc zero) e span parsed =
        let (m, before) = backup_header_before primary_header sector_size s e in
        absurd (parse_gpt_header_before backup m (text "backup") header (rw before at parsed))
    by_sectors (suc (suc k)) e span parsed =
        let place = backup_header_offset_lem primary_header sector_size k (omega arith) in
        record {
          offset = k * sector_size;
          span = span;
          last_sector = omega (arith, ap (λ (t : ℕ). t * sector_size) e);
          is_header =
              (parse_gpt_header_iff backup (k * sector_size) (text "backup") header).0
                (rw place at parsed);
        }

-- The two headers name the same disk, table and usable range, and each the place of the other.
pub record IsMirror (a : GptHeader) (b : GptHeader) : Type 0 where
  pub first_usable : a.first_usable_lba ≡ b.first_usable_lba
  pub last_usable : a.last_usable_lba ≡ b.last_usable_lba
  pub guid : a.disk_guid ≡ b.disk_guid
  pub entries : a.num_partition_entries ≡ b.num_partition_entries
  pub entry_size : a.partition_entry_size ≡ b.partition_entry_size
  pub entry_crc : a.partition_entry_crc32 ≡ b.partition_entry_crc32
  pub current : b.current_lba ≡ a.backup_lba
  pub backup : b.backup_lba ≡ a.current_lba

pub check_mirrored_iff : (a b : GptHeader) → (check_mirrored a b ≡ ok tt) ↔ IsMirror a b
unfolding check_mirrored
check_mirrored_iff a b = (
  λ h. ground (arith, list_beq_iff a.disk_guid b.disk_guid),
  λ m. ground (arith, list_beq_iff a.disk_guid b.disk_guid, m.guid),
)
