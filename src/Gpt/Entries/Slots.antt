-- ===== src/Gpt/Entries/Slots.antt =====
-- The loop over the partition entries accepts exactly the tables whose used slots are well formed.
use oukitel_rt7_linux.Prelude.{
  ℕ, zero, suc, ◌+◌, ◌-◌, ◌*◌, ◌≤◌, ◌≡◌, ap, ◌∙◌, ◌↔◌, inl, inr, false, List, [], ◌∷◌, ◌++◌,
  append_assoc, append-nil, some, arith, ok, Bool-cases, contains, list_beq_iff, list_eq, nat_eq,
  if◌then◌else◌, >>=-eq-ok, Option-cases,
}
use oukitel_rt7_linux.Python.Text.{Text}
use oukitel_rt7_linux.Python.Bytes.{Bytes}
use oukitel_rt7_linux.Python.Dict.{keys, NodupKeys, NodupKeys-append, contains-middle}
use oukitel_rt7_linux.Gpt.Defs.{GptHeader, PartitionInfo, Partitions}
use oukitel_rt7_linux.Gpt.Entries.{
  entry_first, entry_last, entry_name, is_unused, add_entry, slot, read_slots,
}

-- What the entry of a slot in use has to say of its partition.
pub record IsEntry (header : GptHeader) (sector_size : ℕ) (entry : Bytes) (p : Text × PartitionInfo)
    : Type 0 where
  pub named : entry_name entry ≡ some p.0
  pub nonempty : ¬ (p.0 ≡ [])
  pub first : p.1.first_lba ≡ entry_first entry
  pub last : p.1.last_lba ≡ entry_last entry
  pub above : header.first_usable_lba ≤ p.1.first_lba
  pub ordered : p.1.first_lba ≤ p.1.last_lba
  pub below : p.1.last_lba ≤ header.last_usable_lba
  pub sized : p.1.size ≡ (p.1.last_lba - p.1.first_lba + 1) * sector_size

-- The partitions, one for each entry, in order.
abbrev pub Lists : GptHeader → ℕ → List Bytes → Partitions → Type 0
Lists header sector_size [] [] = Unit
Lists header sector_size [] (p ∷ ps) = ⊥
Lists header sector_size (e ∷ es) [] = ⊥
Lists header sector_size (e ∷ es) (p ∷ ps) =
    IsEntry header sector_size e p × Lists header sector_size es ps

-- The slots that are in use, from an index on.
pub used_slots : Bytes → ℕ → ℕ → ℕ → List Bytes
used_slots raw_entries entry_size zero index = []
used_slots raw_entries entry_size (suc left) index =
    let rest = used_slots raw_entries entry_size left (index + 1) in
    if is_unused (slot raw_entries entry_size index)
    then rest
    else slot raw_entries entry_size index ∷ rest

module _ (header : GptHeader) (sector_size : ℕ) (label : Text) where
  abbrev Adds : Bytes → Partitions → Partitions → Type 0
  Adds entry ps qs =
      (p : Text × PartitionInfo) × (qs ≡ ps ++ p ∷ [])
      × IsEntry header sector_size entry p
      × (contains (keys ps) p.0 ≡ false)

  add_entry-Adds :
      (index : ℕ) (entry : Bytes) (ps qs : Partitions)
      → add_entry header sector_size label index entry ps ≡ ok qs
      → Adds entry ps qs
  unfolding add_entry
  add_entry-Adds index entry ps qs h = elim (Option-cases (entry_name entry)) [
    | inl e ↦ ground arith
    | inr (name, e) ↦ (
      (
        name,
        record {
          first_lba = entry_first entry;
          last_lba = entry_last entry;
          size = (entry_last entry - entry_first entry + 1) * sector_size;
        },
      ),
      ground arith,
      ground (arith, list_beq_iff name []),
      ground arith,
    )
  ]

  add_entry-IsEntry :
      (index : ℕ) (entry : Bytes) (ps : Partitions) (p : Text × PartitionInfo)
      → IsEntry header sector_size entry p
      → contains (keys ps) p.0 ≡ false
      → add_entry header sector_size label index entry ps ≡ ok (ps ++ p ∷ [])
  unfolding add_entry
  add_entry-IsEntry index entry ps p e fresh = rw (e.named) (ground (arith, list_beq_iff p.0 []))

  read_slots-Lists_onto :
      (raw_entries : Bytes) (left index : ℕ) (ps qs : Partitions)
      → read_slots header sector_size label raw_entries left index ps ≡ ok qs
      → NodupKeys ps
      → (added : Partitions) × (qs ≡ ps ++ added)
        × Lists header sector_size
            (used_slots raw_entries header.partition_entry_size left index)
            added
        × NodupKeys qs
  unfolding read_slots used_slots
  read_slots-Lists_onto raw_entries zero index ps qs h n =
      ([], ground (arith, append-nil ps), tt, ground arith)
  read_slots-Lists_onto raw_entries (suc left) index ps qs h n =
      elim (Bool-cases (is_unused (slot raw_entries header.partition_entry_size index))) [
        | inl u ↦ rw u (read_slots-Lists_onto raw_entries left (index + 1) ps qs (rw u at h) n)
        | inr u ↦ rw u (
            let (ms, s, r) = >>=-eq-ok _ _ (rw u at h) in
            let (p, e, v, f) = add_entry-Adds index _ ps ms s in
            let (added, e', l, n') =
              read_slots-Lists_onto raw_entries left (index + 1) ms qs r
                (rw e (NodupKeys-append ps p.0 p.1 n f)) in
            (p ∷ added, e' ∙ (rw e (append_assoc ps (p ∷ []) added)), (v, l), n'))
      ]

  Lists-read_slots_onto :
      (raw_entries : Bytes) (left index : ℕ) (ps added : Partitions)
      → Lists header sector_size
          (used_slots raw_entries header.partition_entry_size left index)
          added
      → NodupKeys (ps ++ added)
      → read_slots header sector_size label raw_entries left index ps ≡ ok (ps ++ added)
  unfolding read_slots used_slots
  Lists-read_slots_onto raw_entries zero index ps [] l n = rw (append-nil ps)
  Lists-read_slots_onto raw_entries zero index ps (p ∷ added) l n = absurd l
  Lists-read_slots_onto raw_entries (suc left) index ps [] l n =
      elim (Bool-cases (is_unused (slot raw_entries header.partition_entry_size index))) [
        | inl u ↦ rw u (Lists-read_slots_onto raw_entries left (index + 1) ps [] (rw u at l) n)
        | inr u ↦ absurd (rw u at l)
      ]
  Lists-read_slots_onto raw_entries (suc left) index ps (p ∷ added) l n =
      elim (Bool-cases (is_unused (slot raw_entries header.partition_entry_size index))) [
        | inl u ↦
            rw u (Lists-read_slots_onto raw_entries left (index + 1) ps (p ∷ added) (rw u at l) n)
        | inr u ↦
            let (v, l') = rw u at l in
            let entry = slot raw_entries header.partition_entry_size index in
            let fresh = contains-middle ps added p.0 p.1 n in
            let regroup = append_assoc ps (p ∷ []) added in
            rw u (
              rw (add_entry-IsEntry index entry ps p v fresh) (
                Lists-read_slots_onto raw_entries left (index + 1) (ps ++ p ∷ []) added l'
                  (rw regroup n)
                ∙ ap ok regroup))
      ]

  -- The loop over the entry array accepts exactly if the slots in use hold well-formed entries with
  -- distinct names, and then lists one partition for each of them, in order.
  pub read_slots_iff :
      (raw_entries : Bytes) (ps : Partitions)
      → (read_slots header sector_size label raw_entries header.num_partition_entries 0 [] ≡ ok ps)
        ↔ (Lists header sector_size
              (used_slots raw_entries header.partition_entry_size header.num_partition_entries 0)
              ps
            × NodupKeys ps)
  read_slots_iff raw_entries ps = (
    λ h.
        let (added, e, l, n) = read_slots-Lists_onto raw_entries _ 0 [] ps h tt in
        (rw (← e) at l, n),
    λ v. Lists-read_slots_onto raw_entries _ 0 [] ps v.0 v.1,
  )
