-- ===== src/Plan/Reads.antt =====
-- What the commands of an accepted plan can do: read the allowlisted storage into the output.
use mathlib.Core.List.{flat_map}
use oukitel_rt7_linux.Prelude.{
  ◌≡◌, refl, sym, true, false, ◌⊎◌, inl, inr, List, [], ◌∷◌, ◌++◌, map, ok, contains, Bool-cases,
  list_eq, nat_eq, list_beq, list_beq_iff, All, All-append, All-of-map, All-weaken,
}
use oukitel_rt7_linux.Python.Text.{Text, text}
use oukitel_rt7_linux.Python.Text.Split.{split}
use oukitel_rt7_linux.Python.Dict.{keys}
use oukitel_rt7_linux.Python.Path.{FilePath, ◌/◌, path_str}
use oukitel_rt7_linux.Plan.{
  space, bin, capture_passes, partitions, pass_words, expected_words, validate_read_only_plan,
}
use oukitel_rt7_linux.Plan.Allowlist.{validate_read_only_plan-eq-ok}

-- The commands of mtkclient that read, with a target in the directory of a pass.
pub data ReadCommand (output : FilePath) : List Text → Type 0 where
  gpt :
      (pass : Text)
      → contains capture_passes pass ≡ true
      → ReadCommand output (text "gpt" ∷ path_str (output / pass) ∷ [])
  r :
      (pass name : Text)
      → contains capture_passes pass ≡ true
      → contains (keys partitions) name ≡ true
      → ReadCommand output (text "r" ∷ name ∷ path_str (output / pass / bin name) ∷ [])
  ro :
      (pass lu : Text)
      → contains capture_passes pass ≡ true
      → (lu ≡ text "lu0") ⊎ (lu ≡ text "lu1")
      → ReadCommand output (
          text "ro"
          ∷ text "0x0"
          ∷ text "0x80000"
          ∷ path_str (output / pass / (text "preloader_" ++ (lu ++ text ".bin")))
          ∷ text "--parttype"
          ∷ lu
          ∷ [])

module _ (output : FilePath) (pass : Text) (known : contains capture_passes pass ≡ true) where
  reads-ReadCommand :
      (names : List Text)
      → All (λ name. contains (keys partitions) name ≡ true) names
      → All
          (ReadCommand output)
          (map (λ name. text "r" ∷ name ∷ path_str (output / pass / bin name) ∷ []) names)
  reads-ReadCommand [] h = tt
  reads-ReadCommand (name ∷ names) h = (r pass name known h.0, reads-ReadCommand names h.1)

  pass_words-ReadCommand :
      (names : List Text)
      → All (λ name. contains (keys partitions) name ≡ true) names
      → All (ReadCommand output) (pass_words (output / pass) names)
  unfolding pass_words
  pass_words-ReadCommand names h = (
    gpt pass known,
    All-append (ReadCommand output)
        (map (λ name. text "r" ∷ name ∷ path_str (output / pass / bin name) ∷ []) names) _
        (reads-ReadCommand names h)
        (ro pass (text "lu0") known (inl refl), (ro pass (text "lu1") known (inr refl), tt)),
  )

partitions-known : All (λ name. contains (keys partitions) name ≡ true) (keys partitions)
unfolding partitions keys contains list_beq
partitions-known = (
  refl,
  (
    refl,
    (
      refl,
      (
        refl,
        (
          refl,
          (
            refl,
            (
              refl,
              (refl, (refl, (refl, (refl, (refl, (refl, (refl, (refl, (refl, (refl, tt)))))))))),
            ),
          ),
        ),
      ),
    ),
  ),
)

expected_words-ReadCommand : (output : FilePath) → All (ReadCommand output) (expected_words output)
unfolding expected_words flat_map
expected_words-ReadCommand output =
    let names = keys partitions in
    let one = pass_words (output / text "pass1") names in
    let two = pass_words (output / text "pass2") names in
    All-append (ReadCommand output) one (two ++ [])
      (pass_words-ReadCommand output (text "pass1") (unfold contains list_beq in refl) names
        partitions-known)
      (All-append (ReadCommand output) two []
        (pass_words-ReadCommand output (text "pass2") (unfold contains list_beq in refl) names
          partitions-known)
        tt)

-- Every command of an accepted plan dumps the partition table, reads an allowlisted partition, or
-- reads the first 512 KiB of a boot LU, into the directory of one of the two passes.
pub validate_read_only_plan-ReadCommand :
    (plan : List Text) (output : FilePath)
    → validate_read_only_plan plan output ≡ ok tt
    → All (λ command. ReadCommand output (split space command)) plan
validate_read_only_plan-ReadCommand plan output h =
    All-of-map (ReadCommand output) (split space) plan
      (rw ((validate_read_only_plan-eq-ok plan output).0 h) (expected_words-ReadCommand output))

-- The partitions with personal data, which the script excludes by name.
abbrev pub excluded : List Text
excluded =
    text "userdata"
    ∷ text "metadata"
    ∷ text "nvram"
    ∷ text "nvdata"
    ∷ text "persist"
    ∷ text "protect1"
    ∷ text "protect2"
    ∷ []

abbrev pub Reads : List Text → Text → Type 0
Reads words name = (rest : List Text) × (words ≡ text "r" ∷ (name ∷ rest))

ReadCommand-allowed :
    (output : FilePath) (words : List Text) (name : Text)
    → ReadCommand output words
    → Reads words name
    → contains (keys partitions) name ≡ true
ReadCommand-allowed output words name (gpt _ _) (rest, e) = cc
ReadCommand-allowed output words name (r _ other _ k) (rest, e) =
    let same : other ≡ name = cc in rw same at k
ReadCommand-allowed output words name (ro _ _ _ _) (rest, e) = cc

excluded_unlisted : All (λ name. contains (keys partitions) name ≡ false) excluded
unfolding partitions keys contains list_beq
excluded_unlisted = (refl, (refl, (refl, (refl, (refl, (refl, (refl, tt)))))))

All-contains {ℓ} :
    (P : Text → Type ℓ) (xs : List Text) (a : Text) → All P xs → contains xs a ≡ true → P a
unfolding contains
All-contains P [] a h c = cc
All-contains P (x ∷ xs) a h c = elim (Bool-cases (list_beq a x)) [
  | inl e ↦ let same : x ≡ a = sym ((list_beq_iff a x).0 e) in rw same at h.0
  | inr e ↦ All-contains P xs a h.1 (rw e at c)
]

-- No command of an accepted plan reads one of the partitions with personal data.
pub validate_read_only_plan-excluded :
    (plan : List Text) (output : FilePath) (name : Text)
    → validate_read_only_plan plan output ≡ ok tt
    → contains excluded name ≡ true
    → All (λ command. ¬ (Reads (split space command) name)) plan
validate_read_only_plan-excluded plan output name h x =
    All-weaken (λ command. ReadCommand output (split space command)) _ plan
      (λ command v reads. cc (
        ReadCommand-allowed output (split space command) name v reads,
        All-contains (λ n. contains (keys partitions) n ≡ false) excluded name excluded_unlisted x,
      ))
      (validate_read_only_plan-ReadCommand plan output h)
