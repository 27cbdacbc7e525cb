-- ===== src/Capture/Defs.antt =====
-- The failures of the validation in scripts/capture-recovery-baseline.py, and its tables.
use oukitel_rt7_linux.Prelude.{ℕ, List, [], ◌∷◌, ◌++◌, map, nat_eq, list_eq, if◌then◌else◌}
use oukitel_rt7_linux.Python.Text.{Text, text}
use oukitel_rt7_linux.Python.Bytes.{Bytes}
use oukitel_rt7_linux.Python.Dict.{Dict, keys, insert}
use oukitel_rt7_linux.Python.Json.{text_le}
use oukitel_rt7_linux.Python.Path.{FilePath}
use oukitel_rt7_linux.Gpt.Defs.{GptError}
use oukitel_rt7_linux.Plan.{PlanError, partitions, bin}

-- One line of a validation report, with the values that it prints.
pub data Failure : Type 0 where
  missing unexpected invalid_magic repeated_byte : Text → Text → Failure
  wrong_size : Text → Text → ℕ → ℕ → Failure
  invalid_gpt : GptError → Failure
  gpt_lacks : Text → Failure
  gpt_size : Text → ℕ → ℕ → Failure
  reads_differ : Text → Failure

-- `SystemExit`s, and the exceptions that the script does not catch.
pub data CaptureError : Type 0 where
  validation_failed : List Failure → CaptureError
  passes_differ assertion_error : CaptureError
  os_error : FilePath → CaptureError
  key_error : Text → CaptureError
  encode_error decode_error : FilePath → CaptureError
  refused : PlanError → CaptureError
  outside_private_root wrong_preloader missing_gpt_patch missing_usb_patch : CaptureError
  preloader_not_found : FilePath → CaptureError
  unexpected_commit : Text → CaptureError
  called_process_error mtkclient_failed : ℕ → CaptureError

unfoldable pub fixed_sizes : Dict Text ℕ
unfolding partitions insert
fixed_sizes =
    insert (text "preloader_lu1") 0x80000 (insert (text "preloader_lu0") 0x80000 partitions)

unfoldable pub expected_names : List Text
unfolding fixed_sizes keys
expected_names = map bin (keys fixed_sizes) ++ (text "gpt.bin" ∷ text "gpt_backup.bin" ∷ [])

abbrev pub required_magic : Dict Text Bytes
required_magic =
    (text "boot_a", text "ANDROID!")
    ∷ (text "dtbo_a", 0xD7 ∷ 0xB7 ∷ 0xAB ∷ 0x1E ∷ [])
    ∷ (text "vbmeta_a", text "AVB0")
    ∷ (text "vbmeta_system_a", text "AVB0")
    ∷ (text "vbmeta_vendor_a", text "AVB0")
    ∷ []

abbrev pub nonuniform_names : List Text
nonuniform_names =
    text "lk_a" ∷ text "tee_a" ∷ text "seccfg" ∷ text "preloader_lu0" ∷ text "preloader_lu1" ∷ []

unfoldable pub insert_text : Text → List Text → List Text
unfolding text_le
insert_text a [] = a ∷ []
insert_text a (b ∷ names) =
    let rest = insert_text a names in if text_le a b then a ∷ b ∷ names else b ∷ rest

-- `sorted(names)`
unfoldable pub sorted : List Text → List Text
unfolding insert_text
sorted [] = []
sorted (a ∷ names) = insert_text a (sorted names)
