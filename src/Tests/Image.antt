-- ===== src/Tests/Image.antt =====
-- The boot-image script on a host whose tools write fixed files.
use oukitel_rt7_linux.Prelude.{
  ℕ, if◌then◌else◌, ◌-◌, ◌&&◌, ◌==◌, leb, some, List, ◌≡◌, [], ◌∷◌, ◌++◌, none, list_eq, nat_eq,
  list_beq, contains,
}
use oukitel_rt7_linux.Python.Text.{Text, text, hex}
use oukitel_rt7_linux.Python.Bytes.{Bytes}
use oukitel_rt7_linux.Python.Dict.{lookup, insert}
use mathlib.Core.Option
use oukitel_rt7_linux.Prelude.Exec.{◌>>=◌}
use oukitel_rt7_linux.Python.Text.Split.{split}
use oukitel_rt7_linux.Python.Utf8.{decode_utf8}
use oukitel_rt7_linux.Python.Path.{FilePath, ◌/◌, path_str, file_name}
use oukitel_rt7_linux.Python.Files.{Files, file, directory, read_bytes, write_bytes, replace}
use oukitel_rt7_linux.Python.Hash.{sha256}
use oukitel_rt7_linux.BootImage.Tools.{Host, World}
use oukitel_rt7_linux.BootImage.Inputs.{Options, Inputs, resolve_inputs, check_inputs}
use oukitel_rt7_linux.BootImage.Inputs.Checked.{IsChecked, check_inputs-eq-state}
use oukitel_rt7_linux.BootImage.Main.{build_image, check_custom, main}
use oukitel_rt7_linux.BootImage.RoundTrip.{IsRoundTrip, check_custom-Compared}
use oukitel_rt7_linux.BootImage.Built.{IsBuilt, build_image-Finished}
use oukitel_rt7_linux.BootImage.Whole.{main-Judged}

abbrev work : FilePath
work = text "work" ∷ []

abbrev options : Options
options = record {
  boot_img = text "boot.img";
  expected_boot_sha256 = text "0102";
  kernel = text "kernel";
  ramdisk = none;
  append_cmdline = none;
  output = text "unsigned-do-not-flash.img";
  tools_dir = text "tools";
}

abbrev temporary : FilePath
temporary = work ++ text "rt7-boot-1" ∷ []

abbrev part : Text → Text → FilePath
part place name = temporary ++ place ∷ name ∷ []

-- What unpacking leaves in a directory.
abbrev unpack : Text → Files → Files
unpack place files = write_bytes (part place (text "kernel")) (3 ∷ []) (
    write_bytes (part place (text "ramdisk")) (4 ∷ [])
      (write_bytes (part place (text "dtb")) (5 ∷ []) files))

abbrev arguments : Bytes
arguments = text "--kernel" ++ (0 ∷ (text "k" ++ 0 ∷ []))

abbrev pack : Text → Files → Files
pack image files =
    if image == path_str (temporary ++ text "stock-roundtrip.img" ∷ [])
    then write_bytes (temporary ++ text "stock-roundtrip.img" ∷ []) (1 ∷ 2 ∷ []) files
    else write_bytes (temporary ++ text "custom-unsigned-do-not-flash.img" ∷ []) (6 ∷ []) files

-- The three tools, by the first of their options.
abbrev run_tool : List Text → Files → ℕ × Bytes × Files
run_tool (python ∷ tool ∷ option ∷ image ∷ rest) files =
    if option == text "info_image"
    then (0, text "Original image size:   2 bytes", files)
    else if option == text "--output"
    then (0, [], pack image files)
    else if image == path_str (work ++ text "boot.img" ∷ [])
    then (0, arguments, unpack (text "stock") files)
    else (0, arguments, unpack (text "custom") files)
run_tool _ files = (1, [], files)

abbrev host : Host
host = record {
  hash = record { State = Bytes; start = []; update = λ s b. s ++ b; hexdigest = hex };
  resolve = λ s. work ++ s ∷ [];
  python = text "python3";
  run_process = run_tool;
  fresh_directory = λ parent files. parent ++ text "rt7-boot-1" ∷ [];
  digit = λ c. if leb 48 c && leb c 57 then some (c - 48) else none;
}

abbrev inputs : Inputs
inputs = resolve_inputs host options

abbrev world : World
world = record {
  files =
      (work, directory)
      ∷ (work ++ text "boot.img" ∷ [], file (1 ∷ 2 ∷ []))
      ∷ (work ++ text "kernel" ∷ [], file (3 ∷ []))
      ∷ (inputs.unpack_tool, file [])
      ∷ (inputs.mkbootimg_tool, file [])
      ∷ (inputs.avbtool, file [])
      ∷ [];
  printed = [];
}

abbrev in_block : World
in_block = record world { files = (temporary, directory) ∷ world.files }

-- The run returns, so it has checked its inputs.
main-Judged_example : IsChecked host (text "0102") inputs world.files
unfolding main ◌>>=◌ read_bytes lookup list_beq ◌/◌ contains file_name sha256 decode_utf8 insert
    path_str split Option.bind write_bytes replace
main-Judged_example = main-Judged host options world

check_inputs-eq-state_example : (check_inputs host (text "0102") inputs world).1 ≡ world
check_inputs-eq-state_example = check_inputs-eq-state host (text "0102") inputs world

-- The block returns, so the output holds an image.
build_image-Finished_example :
    IsBuilt host options inputs 2 (build_image host options inputs 2 temporary in_block).1.files
unfolding build_image ◌>>=◌ read_bytes lookup list_beq ◌/◌ contains sha256 decode_utf8 insert
    path_str split Option.bind write_bytes replace resolve_inputs file_name
build_image-Finished_example = build_image-Finished host options inputs 2 temporary in_block

abbrev unpacked : World
unpacked = record {
  files =
      (inputs.kernel, file (3 ∷ []))
      ∷ (part (text "custom") (text "kernel"), file (3 ∷ []))
      ∷ (part (text "stock") (text "ramdisk"), file (4 ∷ []))
      ∷ (part (text "custom") (text "ramdisk"), file (4 ∷ []))
      ∷ (part (text "stock") (text "dtb"), file (5 ∷ []))
      ∷ (part (text "custom") (text "dtb"), file (5 ∷ []))
      ∷ (temporary ++ text "custom-unsigned-do-not-flash.img" ∷ [], file (3 ∷ 4 ∷ []))
      ∷ [];
  printed = [];
}

check_custom-Compared_example : IsRoundTrip host options inputs 2 temporary unpacked.files
unfolding check_custom lookup list_beq read_bytes ◌>>=◌ split Option.bind decode_utf8 contains
    resolve_inputs ◌/◌ path_str write_bytes insert
check_custom-Compared_example =
    check_custom-Compared host options inputs 2 temporary (text "--kernel" ∷ text "k" ∷ []) unpacked
