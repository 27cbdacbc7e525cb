-- ===== src/BootImage/Main.antt =====
-- `main` of scripts/build-test-boot-image.py, on the parsed options.
use oukitel_rt7_linux.Prelude.{
  ℕ, Bool, true, false, List, [], ◌∷◌, ◌++◌, Option, none, some, length, leb, ◌==◌, list_eq, nat_eq,
  if◌then◌else◌, Result, ok, err,
}
use oukitel_rt7_linux.Prelude.Exec.{◌>>=◌, ◌>>◌, pure, lift}
use oukitel_rt7_linux.Python.Text.{Text, text}
use oukitel_rt7_linux.Python.Dict
use oukitel_rt7_linux.Python.Json.{dumps, decimal}
use oukitel_rt7_linux.Python.Hash.{sha256}
use oukitel_rt7_linux.Python.Path.{FilePath, ◌/◌, file_name, path_str, parent, parents}
use oukitel_rt7_linux.Python.Files.{Node, file, directory, exists, make_directory}
use oukitel_rt7_linux.BootImage.Defs.{
  BootError, os_error, stock_size_changed, stock_not_identical, header_arguments_changed,
  kernel_changed, ramdisk_changed, dtb_changed, payload_too_large,
}
use oukitel_rt7_linux.BootImage.Compare.{files_equal}
use oukitel_rt7_linux.BootImage.Arguments.{replace_argument, append_cmdline, normalized_arguments}
use oukitel_rt7_linux.BootImage.Write.{with_name, write_idempotent}
use oukitel_rt7_linux.BootImage.Tools.{
  Host, Build, read, on_files, print, run, with_temporary, unpack_args, original_payload_size,
}
use oukitel_rt7_linux.BootImage.Inputs.{Options, Inputs, resolve_inputs, require, check_inputs}
use oukitel_rt7_linux.BootImage.Manifest.{Described, manifest}

-- `path.mkdir()` where the parent is there.
unfoldable pub make_new : FilePath → Build (Unit {0})
unfolding exists make_directory
make_new path w =
    if exists w.files path
    then (err (os_error path), w)
    else (ok tt, record w { files = make_directory path w.files })

abbrev keep_directory : FilePath → Option Node → Build (Unit {0})
keep_directory path (some directory) w = (ok tt, w)
keep_directory path (some (file _)) w = (err (os_error path), w)
keep_directory path none w = (ok tt, record w { files = make_directory path w.files })

-- `output.parent.mkdir(parents=True, exist_ok=True)`, on the parents of the output.
unfoldable pub make_parents : List FilePath → Build (Unit {0})
unfolding make_directory
make_parents [] = pure tt
make_parents ([] ∷ paths) = make_parents paths
make_parents ((name ∷ path) ∷ paths) =
    (λ w. keep_directory (name ∷ path) (Dict.lookup (name ∷ path) w.files) w) >> make_parents paths

-- The outcome of a comparison. One that runs out of fuel would count as a difference.
abbrev pub is_true : Option Bool → Bool
is_true (some b) = b
is_true none = false

-- `files_equal(left, right, limit)` on the files of two paths.
unfoldable pub same_files : FilePath → FilePath → Option ℕ → Build Bool
unfolding read files_equal
same_files left right limit = do
  left_bytes ← read left
  right_bytes ← read right
  pure (is_true (files_equal left_bytes right_bytes limit))

unfoldable pub describe : Host → FilePath → Build Described
unfolding read
describe host path = do
  bytes ← read path
  pure (record { filename = file_name path; sha256 = sha256 host.hash bytes; size = length bytes })

abbrev pub or_stock : FilePath → Option FilePath → FilePath
or_stock stock_parts none = stock_parts / text "ramdisk"
or_stock stock_parts (some ramdisk) = ramdisk

abbrev is_given : Option FilePath → Bool
is_given none = false
is_given (some _) = true

abbrev pub with_ramdisk : Option FilePath → List Text → Result BootError (List Text)
with_ramdisk none arguments = ok arguments
with_ramdisk (some ramdisk) arguments =
    replace_argument arguments (text "--ramdisk") (path_str ramdisk)

-- An empty suffix counts as none.
abbrev pub with_cmdline : Option Text → List Text → Result BootError (List Text)
with_cmdline none arguments = ok arguments
with_cmdline (some []) arguments = ok arguments
with_cmdline (some (c ∷ suffix)) arguments = append_cmdline arguments (c ∷ suffix)

-- What the block leaves for the manifest.
pub record Built : Type 0 where
  pub arguments : List Text
  pub ramdisk : Described

module _ (host : Host) (options : Options) (inputs : Inputs) (payload_size : ℕ) where
  -- The stock image, unpacked and packed again, has to be as it was.
  unfoldable pub check_stock : FilePath → Build (List Text)
  unfolding unpack_args run same_files
  check_stock temporary = do
    stock_arguments ←
        unpack_args host inputs.unpack_tool inputs.boot_image (temporary / text "stock")
    run host (
        host.python
        ∷ path_str inputs.mkbootimg_tool
        ∷ text "--output"
        ∷ path_str (temporary / text "stock-roundtrip.img")
        ∷ stock_arguments)
    roundtrip ← read (temporary / text "stock-roundtrip.img")
    require (length roundtrip == payload_size) stock_size_changed
    same ← same_files inputs.boot_image (temporary / text "stock-roundtrip.img") (some payload_size)
    require same stock_not_identical
    pure stock_arguments

  unfoldable pub custom_image : FilePath → FilePath
  custom_image temporary = temporary / text "custom-unsigned-do-not-flash.img"

  -- The arguments of the custom image, which is packed with them.
  unfoldable pub pack_custom : FilePath → List Text → Build (List Text)
  unfolding run custom_image replace_argument append_cmdline
  pack_custom temporary stock_arguments = do
    with_kernel ← lift (replace_argument stock_arguments (text "--kernel") (path_str inputs.kernel))
    with_both ← lift (with_ramdisk inputs.ramdisk with_kernel)
    custom_arguments ← lift (with_cmdline options.append_cmdline with_both)
    run host (
        host.python
        ∷ path_str inputs.mkbootimg_tool
        ∷ text "--output"
        ∷ path_str (custom_image temporary)
        ∷ custom_arguments)
    pure custom_arguments

  -- The custom image, unpacked, has to hold what went in, and to fit.
  unfoldable pub check_custom : FilePath → List Text → Build (Unit {0})
  unfolding unpack_args custom_image normalized_arguments same_files
  check_custom temporary custom_arguments = do
    unpacked ←
        unpack_args host inputs.unpack_tool (custom_image temporary) (temporary / text "custom")
    expected ← lift (normalized_arguments custom_arguments)
    found ← lift (normalized_arguments unpacked)
    require (expected == found) header_arguments_changed
    same_kernel ← same_files inputs.kernel (temporary / text "custom" / text "kernel") none
    require same_kernel kernel_changed
    same_ramdisk ←
        same_files (or_stock (temporary / text "stock") inputs.ramdisk)
          (temporary / text "custom" / text "ramdisk") none
    require same_ramdisk ramdisk_changed
    same_dtb ←
        same_files (temporary / text "stock" / text "dtb") (temporary / text "custom" / text "dtb")
          none
    require same_dtb dtb_changed
    custom_bytes ← read (custom_image temporary)
    require (leb (length custom_bytes) payload_size) payload_too_large

  -- The block with the temporary directory.
  unfoldable pub build_image : FilePath → Build Built
  unfolding make_new check_stock pack_custom check_custom describe custom_image on_files
      write_idempotent
  build_image temporary = do
    make_new (temporary / text "stock")
    make_new (temporary / text "custom")
    stock_arguments ← check_stock temporary
    custom_arguments ← pack_custom temporary stock_arguments
    check_custom temporary custom_arguments
    ramdisk ← describe host (or_stock (temporary / text "stock") inputs.ramdisk)
    custom_bytes ← read (custom_image temporary)
    on_files (write_idempotent inputs.output custom_bytes)
    pure (record { arguments = custom_arguments; ramdisk = ramdisk })

  -- What follows the block: the manifest beside the output.
  unfoldable pub write_manifest : Text → Text → Built → Build Described
  unfolding describe normalized_arguments manifest dumps with_name on_files write_idempotent
  write_manifest boot_hash avb_info built = do
    boot_bytes ← read inputs.boot_image
    kernel ← describe host inputs.kernel
    output ← describe host inputs.output
    arguments ← lift (normalized_arguments built.arguments)
    on_files (
        write_idempotent (with_name inputs.output (file_name inputs.output ++ text ".json")) (
          dumps (
            manifest (file_name inputs.boot_image) (length boot_bytes) boot_hash payload_size kernel
              built.ramdisk (is_given inputs.ramdisk) output arguments avb_info)
          ++ 10 ∷ []))
    pure output

  unfoldable pub report : Described → Build (Unit {0})
  unfolding print decimal
  report output = do
    print (text "stock boot payload round-trip: PASS")
    print (text "custom component substitution: PASS")
    print (text "output: " ++ path_str inputs.output)
    print (text "sha256: " ++ output.sha256)
    print (text "size: " ++ (decimal output.size ++ text " bytes"))
    print (text "warning: UNSIGNED RESEARCH ARTIFACT - DO NOT FLASH")

unfoldable pub main_on : Host → Options → Inputs → Build ℕ
unfolding check_inputs make_parents parents parent original_payload_size with_temporary build_image
    write_manifest report
main_on host options inputs = do
  boot_hash ← check_inputs host options.expected_boot_sha256 inputs
  make_parents (parents inputs.output)
  (payload_size, avb_info) ← original_payload_size host inputs.avbtool inputs.boot_image
  built ← with_temporary host (parent inputs.output) (build_image host options inputs payload_size)
  output ← write_manifest host options inputs payload_size boot_hash avb_info built
  report host options inputs payload_size output
  pure 0

unfoldable pub main : Host → Options → Build ℕ
unfolding resolve_inputs main_on
main host options = main_on host options (resolve_inputs host options)
