-- ===== src/Capture/Both/Gpts.antt =====
-- The comparison of the GPTs of two passes in `validate_capture`.
use oukitel_rt7_linux.Prelude.{◌≡◌, ◌↔◌, true, list_eq, nat_eq, list_beq_iff, arith}
use oukitel_rt7_linux.Python.Text.{Text}
use oukitel_rt7_linux.Python.Path.{FilePath}
use oukitel_rt7_linux.Python.Files.{Files}
use oukitel_rt7_linux.Python.Dict.{lookup, NodupKeys}
use oukitel_rt7_linux.Python.Dict.Same.{dict_beq_iff}
use oukitel_rt7_linux.Gpt.Defs.{GptInfo, info_eq}
use oukitel_rt7_linux.Gpt.Pair.Whole.{parse_gpt_pair_iff}
use oukitel_rt7_linux.Capture.Pass.Sound.{IsPass}
use oukitel_rt7_linux.Capture.Both.{gpt_beq}

-- Two reports that agree in every value, and on what stands under each partition name.
pub record SameGpt (a b : GptInfo) : Type 0 where
  pub sector_size : a.sector_size ≡ b.sector_size
  pub disk_guid : a.disk_guid ≡ b.disk_guid
  pub primary_lba : a.primary_lba ≡ b.primary_lba
  pub backup_lba : a.backup_lba ≡ b.backup_lba
  pub first_usable_lba : a.first_usable_lba ≡ b.first_usable_lba
  pub last_usable_lba : a.last_usable_lba ≡ b.last_usable_lba
  pub partitions : (name : Text) → lookup name a.partitions ≡ lookup name b.partitions

-- The table of an accepted pass has no name twice.
pub IsPass-NodupKeys :
    (files : Files) (directory : FilePath) (gpt : GptInfo)
    → IsPass files directory gpt
    → NodupKeys gpt.partitions
IsPass-NodupKeys files directory gpt pass =
    ((parse_gpt_pair_iff pass.primary pass.backup gpt).0 pass.parsed).table.primary_table.distinct

pub gpt_beq_iff :
    (a b : GptInfo)
    → NodupKeys a.partitions
    → NodupKeys b.partitions
    → (gpt_beq a b ≡ true) ↔ SameGpt a b
unfolding gpt_beq
gpt_beq_iff a b n m =
    let tables = dict_beq_iff a.partitions b.partitions n m in
    let guids = list_beq_iff a.disk_guid b.disk_guid in
    (
      λ h. record {
        sector_size = ground arith;
        disk_guid = guids.0 (ground arith);
        primary_lba = ground arith;
        backup_lba = ground arith;
        first_usable_lba = ground arith;
        last_usable_lba = ground arith;
        partitions = tables.0 (ground arith);
      },
      λ s.
          let same_guid = guids.1 s.disk_guid in
          let same_table = tables.1 s.partitions in
          let sectors = s.sector_size in
          let primaries = s.primary_lba in
          let backups = s.backup_lba in
          let firsts = s.first_usable_lba in let lasts = s.last_usable_lba in ground arith,
    )
