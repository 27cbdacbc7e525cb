-- ===== src/Gpt/Pair/Mirror.antt =====
-- The two tables of a mirrored pair hold the same partitions as soon as their bytes agree.
use oukitel_rt7_linux.Prelude.{
  ℕ, ◌≡◌, refl, List, [], ◌∷◌, arith, ok, list_beq_iff, list_eq, nat_eq, >>=-eq-ok,
}
use oukitel_rt7_linux.Prelude.Int.{pos}
use oukitel_rt7_linux.Python.Text.{Text, text}
use oukitel_rt7_linux.Python.Bytes.{Bytes}
use oukitel_rt7_linux.Python.Dict.{dict_beq_refl}
use oukitel_rt7_linux.Gpt.Defs.{GptHeader, PartitionInfo, Partitions, info_eq}
use oukitel_rt7_linux.Gpt.Entries.{parse_gpt_entries, entries_offset}
use oukitel_rt7_linux.Gpt.Entries.Slots.{IsEntry, Lists, used_slots}
use oukitel_rt7_linux.Gpt.Entries.Sound.{IsTable, parse_gpt_entries_iff}
use oukitel_rt7_linux.Gpt.Pair.{backup_start_lba, read_tables}
use oukitel_rt7_linux.Gpt.Pair.Sound.{IsMirror}

IsEntry-unique :
    (g h : GptHeader) (sector_size : ℕ) (entry : Bytes) (p q : Text × PartitionInfo)
    → IsEntry g sector_size entry p
    → IsEntry h sector_size entry q
    → p ≡ q
IsEntry-unique g h sector_size entry p q a b = ground arith

pub Lists-unique :
    (g h : GptHeader) (sector_size : ℕ) (entries : List Bytes) (ps qs : Partitions)
    → Lists g sector_size entries ps
    → Lists h sector_size entries qs
    → ps ≡ qs
Lists-unique g h sector_size [] [] [] a b = refl
Lists-unique g h sector_size [] [] (q ∷ qs) a b = absurd b
Lists-unique g h sector_size [] (p ∷ ps) qs a b = absurd a
Lists-unique g h sector_size (e ∷ es) [] qs a b = absurd a
Lists-unique g h sector_size (e ∷ es) (p ∷ ps) [] a b = absurd b
Lists-unique g h sector_size (e ∷ es) (p ∷ ps) (q ∷ qs) a b =
    cc (IsEntry-unique g h sector_size e p q a.0 b.0, Lists-unique g h sector_size es ps qs a.1 b.1)

module _ (primary backup : Bytes) (a b : GptHeader) (sector_size : ℕ)
    (partitions : Partitions) where
  -- Both spans hold one entry array, and it lists the partitions.
  pub record IsOneTable : Type 0 where
    pub raw_entries : Bytes
    pub primary_table :
        IsTable primary a (entries_offset a (pos 0) sector_size) sector_size raw_entries partitions
    pub backup_table :
        IsTable backup b
          (entries_offset b (backup_start_lba a) sector_size)
          sector_size
          raw_entries
          partitions

  read_tables-eq-ok :
      read_tables primary backup a b sector_size ≡ ok partitions
      → (raw : Bytes) × (others : Partitions) × (parse_gpt_entries primary a
            (pos 0)
            sector_size
            (text "primary")
          ≡ ok (raw, partitions))
        × (parse_gpt_entries backup b (backup_start_lba a) sector_size (text "backup")
            ≡ ok (raw, others))
  unfolding read_tables
  read_tables-eq-ok h =
      let ((raw, ps), read, rest) =
        >>=-eq-ok (parse_gpt_entries primary a (pos 0) sector_size (text "primary")) _ h in
      let ((raw', others), read', rest') =
        >>=-eq-ok (parse_gpt_entries backup b (backup_start_lba a) sector_size (text "backup")) _
          rest in
      let same : ps ≡ partitions = ground arith in
      let bytes : raw' ≡ raw = ground (arith, list_beq_iff raw raw') in
      (raw, others, rw (← same) read, rw (← bytes) read')

  module _ (m : IsMirror a b) where
    others_eq :
        (raw : Bytes) (others : Partitions)
        → IsTable primary a (entries_offset a (pos 0) sector_size) sector_size raw partitions
        → IsTable backup b
            (entries_offset b (backup_start_lba a) sector_size)
            sector_size
            raw
            others
        → others ≡ partitions
    others_eq raw others t u =
        Lists-unique b a sector_size
          (used_slots raw b.partition_entry_size b.num_partition_entries 0) others partitions
          u.listed (rw (← m.entries, ← m.entry_size) t.listed)

    pub read_tables-IsOneTable :
        read_tables primary backup a b sector_size ≡ ok partitions → IsOneTable
    read_tables-IsOneTable h =
        let (raw, others, read, read') = read_tables-eq-ok h in
        let t =
          (parse_gpt_entries_iff primary a sector_size (text "primary") raw partitions (pos 0)).0
            read in
        let u =
          (parse_gpt_entries_iff backup b sector_size (text "backup") raw others
              (backup_start_lba a)).0
            read' in
        record {
          raw_entries = raw;
          primary_table = t;
          backup_table = rw (others_eq raw others t u) at u;
        }

  pub IsOneTable-read_tables :
      IsOneTable → read_tables primary backup a b sector_size ≡ ok partitions
  unfolding read_tables
  IsOneTable-read_tables o =
      let raw = o.raw_entries in
      rw
        ((parse_gpt_entries_iff primary a sector_size (text "primary") raw partitions (pos 0)).1
          o.primary_table)
        (rw
          ((parse_gpt_entries_iff backup b sector_size (text "backup") raw partitions
              (backup_start_lba a)).1
            o.backup_table)
          (rw ((list_beq_iff raw raw).1 refl)
            (rw (dict_beq_refl partitions o.primary_table.distinct) refl)))
