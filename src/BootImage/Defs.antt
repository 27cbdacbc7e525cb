-- ===== src/BootImage/Defs.antt =====
-- The exceptions of scripts/build-test-boot-image.py.
use oukitel_rt7_linux.Prelude.{ℕ}
use oukitel_rt7_linux.Python.Text.{Text}
use oukitel_rt7_linux.Python.Path.{FilePath}

-- `RuntimeError`s with what their messages name; `OSError`, `CalledProcessError`, and the exceptions
-- that the script does not catch.
pub data BootError : Type 0 where
  missing_argument : Text → BootError
  invalid_suffix no_original_size stock_size_changed stock_not_identical : BootError
  header_arguments_changed kernel_changed ramdisk_changed dtb_changed payload_too_large : BootError
  not_a_file : FilePath → BootError
  inside_repository unsafe_output_name : BootError
  boot_hash_mismatch : Text → Text → BootError
  would_overwrite : FilePath → BootError
  os_error : FilePath → BootError
  called_process_error : ℕ → BootError
  index_error decode_error : BootError
