-- ===== src/Gpt/Pair/Whole.antt =====
-- `parse_gpt_pair` accepts exactly the mirrored pairs of GPT spans.
use oukitel_rt7_linux.Prelude.{
  ℕ, zero, suc, ◌+◌, ◌*◌, ◌<◌, ◌≡◌, ◌≢◌, refl, sym, ap, ◌∙◌, ◌↔◌, ◌⊎◌, [], ◌∷◌, arith, ok, length,
  list_beq_iff, list_eq, nat_eq, >>=-eq-ok,
}
use oukitel_rt7_linux.Prelude.Int.{pos, int_beq_iff, ◌*ℤ◌}
use oukitel_rt7_linux.Python.Text.{text, hex}
use oukitel_rt7_linux.Python.Bytes.{Bytes, slice}
use oukitel_rt7_linux.Gpt.Defs.{GptHeader, GptInfo, Partitions, efi_part}
use oukitel_rt7_linux.Gpt.Header.Sound.{parse_gpt_header_iff}
use oukitel_rt7_linux.Gpt.Pair.{
  find_sector_size, backup_sectors, read_primary_header, read_backup_header, check_mirrored,
  read_tables, parse_gpt_pair,
}
use oukitel_rt7_linux.Gpt.Pair.Sound.{
  IsPrimary, IsBackup, IsMirror, read_primary_header-IsPrimary, read_backup_header-IsBackup,
  check_mirrored_iff, backup_header_offset_lem, backup_sectors_lem,
}
use oukitel_rt7_linux.Gpt.Pair.Mirror.{IsOneTable, read_tables-IsOneTable, IsOneTable-read_tables}

-- The sector size at which the primary signature stands, the smaller one first.
abbrev pub IsSectorSize : Bytes → ℕ → Type 0
IsSectorSize primary size =
    ((size ≡ 0x200) × (slice 0x200 0x208 primary ≡ efi_part))
    ⊎ ((size ≡ 0x1000)
        × (slice 0x200 0x208 primary ≢ efi_part)
        × (slice 0x1000 0x1008 primary ≡ efi_part))

-- What is reported of an accepted pair.
abbrev pub info_of : ℕ → GptHeader → Partitions → GptInfo
info_of sector_size header partitions = record {
  sector_size = sector_size;
  disk_guid = hex header.disk_guid;
  primary_lba = header.current_lba;
  backup_lba = header.backup_lba;
  first_usable_lba = header.first_usable_lba;
  last_usable_lba = header.last_usable_lba;
  partitions = partitions;
}

pub record IsPair (primary backup : Bytes) (info : GptInfo) : Type 0 where
  pub primary_header : GptHeader
  pub backup_header : GptHeader
  pub sector : IsSectorSize primary info.sector_size
  pub is_primary : IsPrimary primary info.sector_size primary_header
  pub is_backup : IsBackup backup primary_header info.sector_size backup_header
  pub mirrored : IsMirror primary_header backup_header
  pub table :
      IsOneTable primary backup primary_header backup_header info.sector_size info.partitions
  pub reported : info ≡ info_of info.sector_size primary_header info.partitions

find_sector_size_iff :
    (primary : Bytes) (size : ℕ)
    → 0 < size
    → (find_sector_size primary ≡ size) ↔ IsSectorSize primary size
unfolding find_sector_size
find_sector_size_iff primary size s = ground (
  arith,
  list_beq_iff (slice 0x200 0x208 primary) efi_part,
  list_beq_iff (slice 0x1000 0x1008 primary) efi_part,
)

IsPrimary-read_primary_header :
    (primary : Bytes) (sector_size : ℕ) (header : GptHeader)
    → IsPrimary primary sector_size header
    → read_primary_header primary sector_size ≡ ok header
unfolding read_primary_header
IsPrimary-read_primary_header primary sector_size header v =
    rw ((parse_gpt_header_iff primary sector_size (text "primary") header).1 v.is_header) (
      ground (
        arith,
        v.sector,
        v.at_lba1,
        v.span,
        v.protective_mbr,
        list_beq_iff (slice 0x1FE 0x200 primary) (0x55 ∷ 0xAA ∷ []),
      ))

backup_place :
    (offset size span sectors : ℕ)
    → 0 < size
    → span + size ≡ sectors * size
    → offset + size ≡ span
    → (k : ℕ) × (sectors ≡ k + 2) × (offset ≡ k * size)
backup_place offset size span zero s e l = absurd (omega arith)
backup_place offset size span (suc zero) s e l = absurd (omega arith)
backup_place offset size span (suc (suc k)) s e l = (k, omega arith, omega arith)

IsBackup-read_backup_header :
    (backup : Bytes) (primary_header : GptHeader) (sector_size : ℕ) (header : GptHeader)
    → 0 < sector_size
    → IsBackup backup primary_header sector_size header
    → read_backup_header backup primary_header sector_size ≡ ok header
IsBackup-read_backup_header backup primary_header sector_size header s v =
    let (k, sectors, place) =
      backup_place v.offset sector_size (length backup) primary_header.first_usable_lba s v.span
        v.last_sector in
    let two_more : primary_header.first_usable_lba ≡ suc (k + 1) = omega arith in
    let span : backup_sectors primary_header *ℤ sector_size ≡ pos (length backup) =
      unfold backup_sectors in
      rw two_more
        (backup_sectors_lem (k + 1) sector_size ∙ ap pos (omega (arith, v.last_sector, place))) in
    let read = (parse_gpt_header_iff backup v.offset (text "backup") header).1 v.is_header in
    let there = backup_header_offset_lem primary_header sector_size k sectors in
    unfold read_backup_header in
    rw span (
      rw there
        (rw ((int_beq_iff (pos (length backup)) (pos (length backup))).1 refl) (rw place at read)))

parse_gpt_pair-IsPair :
    (primary backup : Bytes) (info : GptInfo)
    → parse_gpt_pair primary backup ≡ ok info
    → IsPair primary backup info
unfolding parse_gpt_pair
parse_gpt_pair-IsPair primary backup info h =
    let size = find_sector_size primary in
    let (a, read, h1) = >>=-eq-ok (read_primary_header primary size) _ h in
    let (b, read', h2) = >>=-eq-ok (read_backup_header backup a size) _ h1 in
    let (_, checked, h3) = >>=-eq-ok (check_mirrored a b) _ h2 in
    let (ps, tables, h4) = >>=-eq-ok (read_tables primary backup a b size) _ h3 in
    let v = read_primary_header-IsPrimary primary size a read in
    let m = (check_mirrored_iff a b).0 checked in
    let e : info_of size a ps ≡ info = ground arith in
    rw (← e) (record {
      primary_header = a;
      backup_header = b;
      sector = (find_sector_size_iff primary size v.sector).0 refl;
      is_primary = v;
      is_backup = read_backup_header-IsBackup backup a size b v.sector read';
      mirrored = m;
      table = read_tables-IsOneTable primary backup a b size ps m tables;
      reported = refl;
    })

IsPair-parse_gpt_pair :
    (primary backup : Bytes) (info : GptInfo)
    → IsPair primary backup info
    → parse_gpt_pair primary backup ≡ ok info
unfolding parse_gpt_pair
IsPair-parse_gpt_pair primary backup info p =
    let a = p.primary_header in
    let b = p.backup_header in
    let size = info.sector_size in
    rw ((find_sector_size_iff primary size p.is_primary.sector).1 p.sector) (
      rw (IsPrimary-read_primary_header primary size a p.is_primary) (
        rw (IsBackup-read_backup_header backup a size b p.is_primary.sector p.is_backup) (
          rw ((check_mirrored_iff a b).1 p.mirrored) (
            rw (IsOneTable-read_tables primary backup a b size info.partitions p.table)
              (ap ok (sym p.reported))))))

-- A pair of spans is accepted exactly if it is a mirrored pair: the signature stands at one of the
-- two sector sizes, the primary header and its span, the backup header in the last sector of its
-- span and the mirrored fields are as they should be, one well-formed table stands in both, and the
-- report is made of these.
pub parse_gpt_pair_iff :
    (primary backup : Bytes) (info : GptInfo)
    → (parse_gpt_pair primary backup ≡ ok info) ↔ IsPair primary backup info
parse_gpt_pair_iff primary backup info =
    (parse_gpt_pair-IsPair primary backup info, IsPair-parse_gpt_pair primary backup info)
