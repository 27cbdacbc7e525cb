-- ===== src/Capture/Both.antt =====
-- `validate_capture` of scripts/capture-recovery-baseline.py.
pub mod Digests
pub mod Gpts
pub mod Raised
pub mod Agreed
pub mod Quiet
use oukitel_rt7_linux.Prelude.{
  ℕ, Bool, true, false, not, ◌&&◌, List, [], ◌∷◌, ◌++◌, Option, none, some, map, length, ◌==◌, ◌!=◌,
  list_eq, nat_eq, if◌then◌else◌, Result, ok, err,
}
use oukitel_rt7_linux.Prelude.Exec.{◌>>=◌, ◌>>◌, pure, raise, lift, gets}
use oukitel_rt7_linux.Python.Text.{Text, text}
use oukitel_rt7_linux.Python.Dict.{Dict, dict_beq}
use oukitel_rt7_linux.Python.Json.{dumps, decimal}
use oukitel_rt7_linux.Python.Path.{FilePath, ◌/◌, path_str}
use oukitel_rt7_linux.Python.Files.{glob_bin}
use oukitel_rt7_linux.Gpt.Defs.{GptInfo, info_eq}
use oukitel_rt7_linux.Capture.Defs.{
  Failure, reads_differ, CaptureError, validation_failed, passes_differ, sorted,
}
use oukitel_rt7_linux.Capture.Pass.{one_if, validate_capture_pass}
use oukitel_rt7_linux.Capture.Host.{Host, Capture, read, sha256_of, print, write_text}
use oukitel_rt7_linux.Capture.Manifest.{Artifact, compare_slots, capture_manifest}

-- `gpt_by_pass[...] == gpt_by_pass[...]`
unfoldable pub gpt_beq : GptInfo → GptInfo → Bool
unfolding dict_beq
gpt_beq a b =
    (a.sector_size == b.sector_size)
    && ((a.disk_guid == b.disk_guid)
        && ((a.primary_lba == b.primary_lba)
            && ((a.backup_lba == b.backup_lba)
                && ((a.first_usable_lba == b.first_usable_lba)
                    && ((a.last_usable_lba == b.last_usable_lba)
                        && dict_beq a.partitions b.partitions)))))

-- What the loop over the artifacts collects.
pub record Collected : Type 0 where
  pub artifacts : Dict Text Artifact
  pub failures : List Failure
  pub checksum_lines : Text

abbrev checksum_line : Text → Text → Text → Text
checksum_line digest pass name = digest ++ (text "  " ++ (pass ++ (text "/" ++ (name ++ 10 ∷ []))))

abbrev prepend : Text → ℕ → Text → Text → Collected → Collected
prepend name size digest1 digest2 rest = record {
  artifacts = (name, record { size = size; sha256 = digest1 }) ∷ rest.artifacts;
  failures = one_if (digest1 != digest2) (reads_differ name) ++ rest.failures;
  checksum_lines =
      checksum_line digest1 (text "pass1") name
      ++ (checksum_line digest2 (text "pass2") name ++ rest.checksum_lines);
}

abbrev check_failures : List Failure → Capture (Unit {0})
check_failures [] = pure tt
check_failures (failure ∷ failures) = raise (validation_failed (failure ∷ failures))

module _ (host : Host) (output : FilePath) where
  -- The loop over the artifact names, which come without repetition.
  unfoldable pub hash_artifacts : List Text → Capture Collected
  unfolding sha256_of read
  hash_artifacts [] = pure (record { artifacts = []; failures = []; checksum_lines = [] })
  hash_artifacts (name ∷ names) = do
    digest1 ← sha256_of host.hash (output / text "pass1" / name)
    digest2 ← sha256_of host.hash (output / text "pass2" / name)
    bytes ← read (output / text "pass1" / name)
    rest ← hash_artifacts names
    pure (prepend name (length bytes) digest1 digest2 rest)

  -- A pass is validated on the files as they are.
  unfoldable pub check_pass : Text → Capture GptInfo
  unfolding validate_capture_pass
  check_pass pass_name w = (validate_capture_pass w.files (output / pass_name), w)

  abbrev pub check_same : Bool → Capture (Unit {0})
  check_same true = pure tt
  check_same false = raise passes_differ

  -- All that comes before the two files are written.
  unfoldable pub collect : Capture (GptInfo × Collected)
  unfolding check_pass gpt_beq hash_artifacts sorted
  collect = do
    gpt1 ← check_pass (text "pass1")
    gpt2 ← check_pass (text "pass2")
    check_same (gpt_beq gpt1 gpt2)
    names ← gets (λ w. glob_bin w.files (output / text "pass1"))
    collected ← hash_artifacts (sorted names)
    check_failures collected.failures
    pure (gpt1, collected)

  unfoldable pub write_manifests : GptInfo × Collected → Capture (Unit {0})
  unfolding write_text print compare_slots capture_manifest dumps
  write_manifests (gpt, collected) = do
    slot_comparisons ← lift (compare_slots collected.artifacts)
    write_text (output / text "SHA256SUMS.txt") collected.checksum_lines
    write_text (output / text "capture-manifest.json")
        (dumps (capture_manifest collected.artifacts gpt slot_comparisons) ++ 10 ∷ [])
    print (
        text "Validated "
        ++ (decimal (length collected.artifacts)
            ++ text " artifacts across 2 identical read passes"))
    print (text "SHA-256 manifest: " ++ path_str (output / text "SHA256SUMS.txt"))
    print (text "Capture manifest: " ++ path_str (output / text "capture-manifest.json"))

  unfoldable pub validate_capture : Capture (Unit {0})
  unfolding collect write_manifests
  validate_capture = do checked ← collect; write_manifests checked
