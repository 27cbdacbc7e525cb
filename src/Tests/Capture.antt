-- ===== src/Tests/Capture.antt =====
-- The validation of captures and its entry point on small file systems.
use oukitel_rt7_linux.Prelude.{
  ◌≡◌, ◌↔◌, refl, true, false, [], ◌∷◌, ◌++◌, ok, All, list_eq, nat_eq, take, list_beq, contains,
  ◌==◌, if◌then◌else◌, length, List,
}
use oukitel_rt7_linux.Python.Text.{Text, text}
use oukitel_rt7_linux.Prelude.Exec.{◌>>=◌}
use oukitel_rt7_linux.Python.Text.Split.{split}
use oukitel_rt7_linux.Python.Bytes.{Bytes}
use oukitel_rt7_linux.Python.Utf8.{decode_utf8}
use oukitel_rt7_linux.Python.Hash.{sha256}
use oukitel_rt7_linux.Python.Path.{FilePath, ◌/◌, path_str}
use oukitel_rt7_linux.Python.Files.{Files, file, directory, read_bytes, glob_bin, write_bytes}
use oukitel_rt7_linux.Capture.Uniform.{
  has_nonuniform_content, IsUniform, has_nonuniform_content_iff,
}
use oukitel_rt7_linux.Capture.Pass.{validate_capture_pass}
use oukitel_rt7_linux.Capture.Pass.Sound.{IsPass, validate_capture_pass_iff}
use oukitel_rt7_linux.Capture.Host.{Host, World}
use oukitel_rt7_linux.Capture.Main.{Options, preloader_sha256, main}
use oukitel_rt7_linux.Capture.Tool.{mtkclient_usb_patch_marker}
use oukitel_rt7_linux.Capture.Manifest.{mtkclient_commit, mtkclient_gpt_patch_marker}
use oukitel_rt7_linux.Capture.Main.Commands.{IsAllowed, main-IsAllowed}
use oukitel_rt7_linux.Tests.Disk.{primary, backup, info}

uniform_runs : has_nonuniform_content (7 ∷ 7 ∷ []) ≡ false
unfolding has_nonuniform_content list_beq
uniform_runs = refl

has_nonuniform_content_iff_example : IsUniform (7 ∷ 7 ∷ [])
has_nonuniform_content_iff_example = (has_nonuniform_content_iff (7 ∷ 7 ∷ [])).0 uniform_runs

-- A pass with the two GPT spans and one artifact too short.
abbrev output : FilePath
output = text "rt7-work" ∷ text "recovery" ∷ text "a" ∷ []

abbrev pass1 : FilePath
pass1 = output ++ text "pass1" ∷ []

abbrev files : Files
files =
    (output, directory)
    ∷ (pass1, directory)
    ∷ (pass1 ++ text "gpt.bin" ∷ [], file primary)
    ∷ (pass1 ++ text "gpt_backup.bin" ∷ [], file backup)
    ∷ (pass1 ++ text "misc.bin" ∷ [], file (1 ∷ 2 ∷ []))
    ∷ []

validate_capture_pass_iff_example :
    (validate_capture_pass files pass1 ≡ ok info) ↔ IsPass files pass1 info
validate_capture_pass_iff_example = validate_capture_pass_iff files pass1 info

abbrev host : Host
host = record {
  hash = record { State = Bytes; start = []; update = λ s b. s ++ b; hexdigest = λ s. take 2 s };
  resolve = λ s. output;
  python = text "python3";
  run_process = λ command place files. (0, [], files);
}

abbrev world : World
world = record { files = files; printed = []; commands = [] }

abbrev options : Options
options = record {
  preloader = text "/p";
  output_dir = text "/o";
  mtk_root = text "/m";
  execute = true;
  debug_usb = false;
}

-- A host on which the checks of the tool pass: git prints the pinned commit, and the two files of
-- mtkclient hold their markers.
abbrev output_of : List Text → Text
output_of [] = []
output_of (name ∷ _) = if name == text "git" then mtkclient_commit else []

abbrev root : FilePath
root = text "m" ∷ []

abbrev resolve : Text → FilePath
resolve s =
    if s == text "/rt7-work/recovery"
    then text "rt7-work" ∷ text "recovery" ∷ []
    else if s == text "/o"
    then text "rt7-work" ∷ text "recovery" ∷ text "a" ∷ []
    else if s == text "/m"
    then root
    else text "p" ∷ []

abbrev ready : Host
ready = record {
  hash = record {
    State = Bytes;
    start = [];
    update = λ s b. s ++ b;
    hexdigest = λ s. preloader_sha256;
  };
  resolve = resolve;
  python = text "python3";
  run_process = λ command place files. (0, output_of command, files);
}

abbrev library : FilePath
library = root ++ text "mtkclient" ∷ text "Library" ∷ []

abbrev prepared : World
prepared = record {
  files =
      (text "p" ∷ [], file (1 ∷ []))
      ∷ (library ++ text "DA" ∷ text "mtk_da_handler.py" ∷ [], file mtkclient_gpt_patch_marker)
      ∷ (library ++ text "mtk_class.py" ∷ [], file mtkclient_usb_patch_marker)
      ∷ [];
  printed = [];
  commands = [];
}

main-IsAllowed_example : All (IsAllowed ready options) (main ready options prepared).1.commands
main-IsAllowed_example = main-IsAllowed ready options prepared refl

-- The tool is checked by two processes, and mtkclient is started.
three_started : length (main ready options prepared).1.commands ≡ 3
unfolding main list_beq ◌>>=◌ contains read_bytes sha256 ◌/◌ decode_utf8 split path_str glob_bin
    write_bytes
three_started = refl
