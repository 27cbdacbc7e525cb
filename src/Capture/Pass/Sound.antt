-- ===== src/Capture/Pass/Sound.antt =====
-- What a pass is that `validate_capture_pass` accepts.
use oukitel_rt7_linux.Prelude.{
  ℕ, ◌≡◌, ◌↔◌, refl, true, List, [], ◌∷◌, Option, none, some, contains, list_eq, nat_eq, ok, arith,
  All,
}
use oukitel_rt7_linux.Python.Text.{Text, text}
use oukitel_rt7_linux.Python.Bytes.{Bytes}
use oukitel_rt7_linux.Python.Dict.{lookup}
use oukitel_rt7_linux.Python.Path.{FilePath, file_name}
use oukitel_rt7_linux.Python.Files.{Files, glob_bin}
use oukitel_rt7_linux.Gpt.Defs.{GptInfo}
use oukitel_rt7_linux.Gpt.Pair.{parse_gpt_pair}
use oukitel_rt7_linux.Plan.{partitions}
use oukitel_rt7_linux.Capture.Defs.{
  Failure, fixed_sizes, expected_names, required_magic, nonuniform_names,
}
use oukitel_rt7_linux.Capture.Pass.{
  gpt_check, table_check, artifact, gpt_of_pass, sizes_check, magics_check, contents_check,
  pass_failures, pass_result, validate_capture_pass,
}
use oukitel_rt7_linux.Capture.Pass.Checks.{
  Sized, Begins, Varies, InTable, append-eq-nil, flat_map-eq-nil, names_check-eq-nil,
  size_check-eq-nil, magic_check-eq-nil, content_check-eq-nil, table_check-eq-nil,
}

-- A complete pass. A directory with the name of an artifact passes as one whose content is not
-- looked at.
pub record IsPass (files : Files) (directory : FilePath) (gpt : GptInfo) : Type 0 where
  pub complete : All (λ name. contains (glob_bin files directory) name ≡ true) expected_names
  pub nothing_else : All (λ name. contains expected_names name ≡ true) (glob_bin files directory)
  pub sized : All (λ (p : Text × ℕ). Sized p.1 (artifact files directory p.0)) fixed_sizes
  pub primary : Bytes
  pub backup : Bytes
  pub read_primary : artifact files directory (text "gpt") ≡ some primary
  pub read_backup : artifact files directory (text "gpt_backup") ≡ some backup
  pub parsed : parse_gpt_pair primary backup ≡ ok gpt
  pub tabled : All (λ (p : Text × ℕ). InTable p.1 (lookup p.0 gpt.partitions)) partitions
  pub begun : All (λ (p : Text × Bytes). Begins p.1 (artifact files directory p.0)) required_magic
  pub varied : All (λ name. Varies (artifact files directory name)) nonuniform_names

pass_result-eq-ok :
    (failures : List Failure) (o : Option GptInfo) (gpt : GptInfo)
    → (pass_result failures o ≡ ok gpt) ↔ ((failures ≡ []) × (o ≡ some gpt))
unfolding pass_result
pass_result-eq-ok (failure ∷ failures) o gpt = (λ h. cc, λ h. cc)
pass_result-eq-ok [] none gpt = (λ h. cc, λ h. cc)
pass_result-eq-ok [] (some g) gpt = ground arith

-- The two spans that are there and their report.
record IsParsed (p b : Option Bytes) (gpt : GptInfo) : Type 0 where
  primary : Bytes
  backup : Bytes
  is_primary : p ≡ some primary
  is_backup : b ≡ some backup
  parsed : parse_gpt_pair primary backup ≡ ok gpt

gpt_check-IsParsed :
    (p b : Option Bytes) (gpt : GptInfo) → (gpt_check p b).1 ≡ some gpt → IsParsed p b gpt
unfolding gpt_check
gpt_check-IsParsed none b gpt h = cc
gpt_check-IsParsed (some p) none gpt h = cc
gpt_check-IsParsed (some p) (some b) gpt h = record {
  primary = p;
  backup = b;
  is_primary = refl;
  is_backup = refl;
  parsed = ground arith;
}

IsParsed-gpt_check :
    (p b : Option Bytes) (gpt : GptInfo) → IsParsed p b gpt → gpt_check p b ≡ ([], some gpt)
unfolding gpt_check
IsParsed-gpt_check p b gpt i = rw (i.is_primary) (rw (i.is_backup) (rw (i.parsed) refl))

module _ (files : Files) (directory : FilePath) (gpt : GptInfo) where
  sizes_check-eq-nil :
      (sizes_check files directory ≡ [])
      ↔ All (λ (p : Text × ℕ). Sized p.1 (artifact files directory p.0)) fixed_sizes
  sizes_check-eq-nil =
      flat_map-eq-nil _ _ (λ p. size_check-eq-nil _ p (artifact files directory p.0)) fixed_sizes

  magics_check-eq-nil :
      (magics_check files directory ≡ [])
      ↔ All (λ (p : Text × Bytes). Begins p.1 (artifact files directory p.0)) required_magic
  magics_check-eq-nil =
      flat_map-eq-nil _ _ (λ p. magic_check-eq-nil _ p (artifact files directory p.0))
        required_magic

  contents_check-eq-nil :
      (contents_check files directory ≡ [])
      ↔ All (λ name. Varies (artifact files directory name)) nonuniform_names
  contents_check-eq-nil =
      flat_map-eq-nil _ _ (λ name. content_check-eq-nil _ name (artifact files directory name))
        nonuniform_names

  validate_capture_pass-IsPass :
      validate_capture_pass files directory ≡ ok gpt → IsPass files directory gpt
  unfolding validate_capture_pass pass_failures
  validate_capture_pass-IsPass h =
      let (none_failed, found) = (pass_result-eq-ok _ _ gpt).0 h in
      let (names, h1) = (append-eq-nil _ _).0 none_failed in
      let (sizes, h2) = (append-eq-nil _ _).0 h1 in
      let (_, h3) = (append-eq-nil (gpt_of_pass files directory).0 _).0 h2 in
      let (table, h4) = (append-eq-nil (table_check (gpt_of_pass files directory).1) _).0 h3 in
      let (magics, contents) = (append-eq-nil _ _).0 h4 in
      let i = gpt_check-IsParsed _ _ gpt found in
      let (complete, nothing_else) =
        (names_check-eq-nil (file_name directory) (glob_bin files directory)).0 names in
      record {
        complete = complete;
        nothing_else = nothing_else;
        sized = sizes_check-eq-nil.0 sizes;
        primary = i.primary;
        backup = i.backup;
        read_primary = i.is_primary;
        read_backup = i.is_backup;
        parsed = i.parsed;
        tabled = (table_check-eq-nil gpt).0 (rw found at table);
        begun = magics_check-eq-nil.0 magics;
        varied = contents_check-eq-nil.0 contents;
      }

  IsPass-validate_capture_pass :
      IsPass files directory gpt → validate_capture_pass files directory ≡ ok gpt
  unfolding validate_capture_pass pass_failures
  IsPass-validate_capture_pass v =
      let i : IsParsed (artifact files directory (text "gpt"))
          (artifact files directory (text "gpt_backup")) gpt =
        record {
          primary = v.primary;
          backup = v.backup;
          is_primary = v.read_primary;
          is_backup = v.read_backup;
          parsed = v.parsed;
        } in
      let checked : gpt_of_pass files directory ≡ ([], some gpt) = IsParsed-gpt_check _ _ gpt i in
      let table = (table_check-eq-nil gpt).1 v.tabled in
      let rest =
        (append-eq-nil _ _).1 (magics_check-eq-nil.1 v.begun, contents_check-eq-nil.1 v.varied) in
      let names =
        (names_check-eq-nil (file_name directory) (glob_bin files directory)).1
          (v.complete, v.nothing_else) in
      rw checked (rw (table, names, sizes_check-eq-nil.1 v.sized, rest) refl)

-- A pass is accepted, with the report of its GPT, exactly if the directory holds all expected
-- artifacts and no other, those that are files have their sizes, its two GPT spans are a pair whose
-- table lists every partition of the plan with its size, the headers that have a magic begin with
-- it, and the files that may not be uniform are not.
pub validate_capture_pass_iff :
    (files : Files) (directory : FilePath) (gpt : GptInfo)
    → (validate_capture_pass files directory ≡ ok gpt) ↔ IsPass files directory gpt
validate_capture_pass_iff files directory gpt = (
  validate_capture_pass-IsPass files directory gpt,
  IsPass-validate_capture_pass files directory gpt,
)
