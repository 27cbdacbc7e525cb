-- ===== src/Capture/Pass.antt =====
-- `validate_capture_pass` of scripts/capture-recovery-baseline.py.
pub mod Checks
pub mod Sound
use mathlib.Core.List.{flat_map}
use oukitel_rt7_linux.Prelude.{
  ℕ, Bool, true, false, ◌&&◌, not, List, [], ◌∷◌, ◌++◌, Option, none, some, map, length, take,
  contains, ◌!=◌, list_eq, nat_eq, if◌then◌else◌, Result, ok, err,
}
use oukitel_rt7_linux.Python.Text.{Text, text}
use oukitel_rt7_linux.Python.Bytes.{Bytes}
use oukitel_rt7_linux.Python.Dict.{lookup}
use oukitel_rt7_linux.Python.Path.{FilePath, ◌/◌, file_name}
use oukitel_rt7_linux.Python.Files.{Files, read_bytes, glob_bin}
use oukitel_rt7_linux.Gpt.Defs.{GptInfo, GptError, PartitionInfo, Parsed}
use oukitel_rt7_linux.Gpt.Pair.{parse_gpt_pair}
use oukitel_rt7_linux.Plan.{partitions, bin}
use oukitel_rt7_linux.Capture.Defs.{
  Failure, missing, unexpected, wrong_size, invalid_gpt, gpt_lacks, gpt_size, invalid_magic,
  repeated_byte, CaptureError, validation_failed, assertion_error, fixed_sizes, expected_names,
  required_magic, nonuniform_names, sorted,
}
use oukitel_rt7_linux.Capture.Uniform.{has_nonuniform_content}

abbrev pub one_if : Bool → Failure → List Failure
one_if true failure = failure ∷ []
one_if false failure = []

-- `xs - ys` of sets, where a set is its members.
unfoldable pub without : List Text → List Text → List Text
without ys [] = []
without ys (x ∷ xs) = let rest = without ys xs in if contains ys x then rest else x ∷ rest

unfoldable pub sorted_difference : List Text → List Text → List Text
unfolding sorted without
sorted_difference xs ys = sorted (without ys xs)

-- Checks of a file that do nothing where `path.is_file()` fails.
unfoldable pub size_check : Text → Text × ℕ → Option Bytes → List Failure
size_check directory_name (name, size) none = []
size_check directory_name (name, size) (some bytes) =
    one_if (length bytes != size) (wrong_size directory_name (bin name) (length bytes) size)

unfoldable pub magic_check : Text → Text × Bytes → Option Bytes → List Failure
magic_check directory_name (name, magic) none = []
magic_check directory_name (name, magic) (some bytes) =
    one_if (take (length magic) bytes != magic) (invalid_magic directory_name (bin name))

unfoldable pub content_check : Text → Text → Option Bytes → List Failure
content_check directory_name name none = []
content_check directory_name name (some bytes) =
    one_if (not (has_nonuniform_content bytes)) (repeated_byte directory_name (bin name))

unfoldable pub names_check : Text → List Text → List Failure
unfolding sorted_difference expected_names
names_check directory_name actual =
    map (missing directory_name) (sorted_difference expected_names actual)
    ++ map (unexpected directory_name) (sorted_difference actual expected_names)

-- `except ValueError as error`
unfoldable pub parsed_or_failure : Parsed GptInfo → List Failure × Option GptInfo
parsed_or_failure (ok gpt) = ([], some gpt)
parsed_or_failure (err error) = (invalid_gpt error ∷ [], none)

unfoldable pub gpt_check : Option Bytes → Option Bytes → List Failure × Option GptInfo
unfolding parsed_or_failure
gpt_check (some primary) (some backup) = parsed_or_failure (parse_gpt_pair primary backup)
gpt_check _ _ = ([], none)

unfoldable pub partition_check : Text → ℕ → Option PartitionInfo → List Failure
partition_check name expected_size none = gpt_lacks name ∷ []
partition_check name expected_size (some p) =
    one_if (p.size != expected_size) (gpt_size name p.size expected_size)

unfoldable pub table_check : Option GptInfo → List Failure
unfolding partition_check partitions flat_map lookup
table_check none = []
table_check (some gpt) =
    flat_map (λ (p : Text × ℕ). partition_check p.0 p.1 (lookup p.0 gpt.partitions)) partitions

module _ (files : Files) (directory : FilePath) where
  -- The file of an artifact, if it is one.
  abbrev pub artifact : Text → Option Bytes
  artifact name = read_bytes files (directory / bin name)

  abbrev pub gpt_of_pass : List Failure × Option GptInfo
  gpt_of_pass = gpt_check (artifact (text "gpt")) (artifact (text "gpt_backup"))

  abbrev pub sizes_check : List Failure
  sizes_check =
      flat_map (λ (p : Text × ℕ). size_check (file_name directory) p (artifact p.0)) fixed_sizes

  abbrev pub magics_check : List Failure
  magics_check =
      flat_map (λ (p : Text × Bytes). magic_check (file_name directory) p (artifact p.0))
        required_magic

  abbrev pub contents_check : List Failure
  contents_check =
      flat_map (λ name. content_check (file_name directory) name (artifact name)) nonuniform_names

  -- The failures, in the order in which they are noted.
  unfoldable pub pass_failures : List Failure
  unfolding names_check size_check gpt_check table_check magic_check content_check
  pass_failures =
      names_check (file_name directory) (glob_bin files directory)
      ++ (sizes_check
          ++ (gpt_of_pass.0 ++ (table_check gpt_of_pass.1 ++ (magics_check ++ contents_check))))

-- What follows the checks.
unfoldable pub pass_result : List Failure → Option GptInfo → Result CaptureError GptInfo
pass_result (failure ∷ failures) gpt = err (validation_failed (failure ∷ failures))
pass_result [] none = err assertion_error
pass_result [] (some gpt) = ok gpt

unfoldable pub validate_capture_pass : Files → FilePath → Result CaptureError GptInfo
unfolding pass_failures pass_result gpt_check
validate_capture_pass files directory =
    pass_result (pass_failures files directory) (gpt_of_pass files directory).1
