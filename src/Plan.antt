-- ===== src/Plan.antt =====
-- The fixed read-only plan of scripts/capture-recovery-baseline.py and the command that runs it.
pub mod Allowlist
pub mod Reads
use oukitel_rt7_linux.Prelude.{
  ℕ, ◌≡◌, Bool, true, false, ◌||◌, List, [], ◌∷◌, ◌++◌, map, ◌!=◌, list_eq, nat_eq, ok, err, Result,
  raise_if, contains, if◌then◌else◌,
}
use mathlib.Core.List.{flat_map}
use oukitel_rt7_linux.Python.Text.{Text, text, is_space}
use oukitel_rt7_linux.Python.Text.Split.{split}
use oukitel_rt7_linux.Python.Dict.{Dict, keys}
use oukitel_rt7_linux.Python.Path.{FilePath, ◌/◌, path_str}

abbrev pub capture_passes : List Text
capture_passes = text "pass1" ∷ text "pass2" ∷ []

-- PARTITIONS
unfoldable pub partitions : Dict Text ℕ
partitions =
    (text "misc", 0x80000)
    ∷ (text "para", 0x80000)
    ∷ (text "seccfg", 0x800000)
    ∷ (text "vbmeta_a", 0x800000)
    ∷ (text "vbmeta_system_a", 0x800000)
    ∷ (text "vbmeta_vendor_a", 0x800000)
    ∷ (text "vbmeta_b", 0x800000)
    ∷ (text "vbmeta_system_b", 0x800000)
    ∷ (text "vbmeta_vendor_b", 0x800000)
    ∷ (text "lk_a", 0x200000)
    ∷ (text "boot_a", 0x2800000)
    ∷ (text "dtbo_a", 0x800000)
    ∷ (text "tee_a", 0x500000)
    ∷ (text "lk_b", 0x200000)
    ∷ (text "boot_b", 0x2800000)
    ∷ (text "dtbo_b", 0x800000)
    ∷ (text "tee_b", 0xB00000)
    ∷ []

abbrev pub space : ℕ
space = b' '

-- `f"{name}.bin"`
abbrev pub bin : Text → Text
bin name = name ++ text ".bin"

-- f"r {name} {pass_output / f'{name}.bin'}"
unfoldable pub read_command : FilePath → Text → Text
read_command pass_output name = text "r " ++ (name ++ (space ∷ path_str (pass_output / bin name)))

-- The commands of one pass.
unfoldable pub pass_plan : FilePath → List Text → List Text
unfolding read_command
pass_plan pass_output names =
    (text "gpt " ++ path_str pass_output)
    ∷ (map (read_command pass_output) names
        ++ ((text "ro 0x0 0x80000 "
              ++ (path_str (pass_output / text "preloader_lu0.bin") ++ text " --parttype lu0"))
            ∷ (text "ro 0x0 0x80000 "
                ++ (path_str (pass_output / text "preloader_lu1.bin") ++ text " --parttype lu1"))
            ∷ []))

unfoldable pub build_plan : FilePath → List Text
unfolding pass_plan
build_plan output =
    flat_map (λ pass_name. pass_plan (output / pass_name) (keys partitions)) capture_passes

-- The words that one pass may consist of.
unfoldable pub pass_words : FilePath → List Text → List (List Text)
pass_words pass_output names =
    (text "gpt" ∷ path_str pass_output ∷ [])
    ∷ (map (λ name. text "r" ∷ name ∷ path_str (pass_output / bin name) ∷ []) names
        ++ ((text "ro"
              ∷ text "0x0"
              ∷ text "0x80000"
              ∷ path_str (pass_output / text "preloader_lu0.bin")
              ∷ text "--parttype"
              ∷ text "lu0"
              ∷ [])
            ∷ (text "ro"
                ∷ text "0x0"
                ∷ text "0x80000"
                ∷ path_str (pass_output / text "preloader_lu1.bin")
                ∷ text "--parttype"
                ∷ text "lu1"
                ∷ [])
            ∷ []))

unfoldable pub expected_words : FilePath → List (List Text)
unfolding pass_words
expected_words output =
    flat_map (λ pass_name. pass_words (output / pass_name) (keys partitions)) capture_passes

-- The `SystemExit`s before a device is touched.
pub data PlanError : Type 0 where
  not_the_allowlist : PlanError
  unsafe_path : Text → Text → PlanError

unfoldable pub validate_read_only_plan : List Text → FilePath → Result PlanError (Unit {0})
unfolding expected_words
validate_read_only_plan plan output =
    raise_if (map (split space) plan != expected_words output) not_the_allowlist

unfoldable pub any_char : (ℕ → Bool) → Text → Bool
any_char test [] = false
any_char test (c ∷ s) = test c || any_char test s

-- `safe_path`, where `resolve` is the file system's `Path(_).resolve()`.
unfoldable pub safe_path : (Text → FilePath) → Text → Text → Result PlanError FilePath
unfolding any_char
safe_path resolve value label =
    if any_char is_space value || (contains value b',' || contains value b';')
    then err (unsafe_path label value)
    else ok (resolve value)

-- The arguments of mtkclient, where `python` is `sys.executable`.
unfoldable pub build_mtk_command : Text → FilePath → FilePath → FilePath → Bool → List Text
build_mtk_command python mtk_root preloader plan_file debug_usb =
    (python ∷ path_str (mtk_root / text "mtk.py") ∷ [])
    ++ ((if debug_usb then text "--debugmode" ∷ [] else [])
        ++ (text "--vid"
            ∷ text "0x0E8D"
            ∷ text "--preloader"
            ∷ path_str preloader
            ∷ text "script"
            ∷ path_str plan_file
            ∷ []))
