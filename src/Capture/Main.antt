-- ===== src/Capture/Main.antt =====
-- `main` of scripts/capture-recovery-baseline.py, on the parsed options.
pub mod Commands
use oukitel_rt7_linux.Prelude.{
  ℕ, Bool, true, false, not, List, [], ◌∷◌, ◌++◌, Option, none, some, contains, ◌==◌, list_eq,
  nat_eq, Result, ok, err, if◌then◌else◌,
}
use oukitel_rt7_linux.Prelude.Exec.{◌>>=◌, ◌>>◌, pure, raise, gets}
use oukitel_rt7_linux.Python.Text.{Text, text}
use oukitel_rt7_linux.Python.Text.Split.{join}
use oukitel_rt7_linux.Python.Dict
use oukitel_rt7_linux.Python.Path.{FilePath, ◌/◌, path_str, parents}
use oukitel_rt7_linux.Python.Files.{Files, Node, file, directory, is_file, exists, make_directory}
use oukitel_rt7_linux.Plan.{
  PlanError, safe_path, build_plan, validate_read_only_plan, build_mtk_command,
}
use oukitel_rt7_linux.Capture.Defs.{
  CaptureError, refused, outside_private_root, preloader_not_found, wrong_preloader,
  mtkclient_failed, os_error,
}
use oukitel_rt7_linux.Capture.Host.{Host, World, Capture, sha256_of, print, write_text}
use oukitel_rt7_linux.Capture.Tool.{require, start, validate_tool}
use oukitel_rt7_linux.Capture.Both.{validate_capture}

pub record Options : Type 0 where
  pub preloader : Text
  pub output_dir : Text
  pub mtk_root : Text
  pub execute : Bool
  pub debug_usb : Bool

abbrev pub preloader_sha256 : Text
preloader_sha256 = text "e76b3bc6f70f263026088c19665d25b900956832efcc448804be921cc765fa26"

abbrev pub or_refuse : {A : Type 0} → Result PlanError A → Capture A
or_refuse (ok a) = pure a
or_refuse (err e) = raise (refused e)

-- `path.mkdir()` where the parent is there.
unfoldable pub make_new : FilePath → Capture (Unit {0})
unfolding exists make_directory
make_new path w =
    if exists w.files path
    then (err (os_error path), w)
    else (ok tt, record w { files = make_directory path w.files })

abbrev keep_directory : FilePath → Option Node → Capture (Unit {0})
keep_directory path (some directory) w = (ok tt, w)
keep_directory path (some (file _)) w = (err (os_error path), w)
keep_directory path none w = (ok tt, record w { files = make_directory path w.files })

-- The parents below the root, the shortest first.
unfoldable pub make_parents : List FilePath → Capture (Unit {0})
unfolding make_directory
make_parents [] = pure tt
make_parents ([] ∷ paths) = make_parents paths
make_parents ((name ∷ path) ∷ paths) =
    (λ w. keep_directory (name ∷ path) (Dict.lookup (name ∷ path) w.files) w) >> make_parents paths

-- `output.mkdir(parents=True, exist_ok=False)`
unfoldable pub make_output : FilePath → Capture (Unit {0})
unfolding make_new make_parents parents
make_output output = do
  taken ← gets (λ w. exists w.files output)
  require (not taken) (os_error output)
  make_parents (parents output)
  make_new output

unfoldable pub print_commands : List Text → Capture (Unit {0})
unfolding print
print_commands [] = pure tt
print_commands (command ∷ plan) = do print (text "  " ++ command); print_commands plan

module _ (host : Host) (options : Options) where
  abbrev pub mtk_command : FilePath → FilePath → FilePath → List Text
  mtk_command mtk_root preloader output =
      build_mtk_command host.python mtk_root preloader (output / text "read-only-plan.txt")
        options.debug_usb

  -- What follows the checks with `--execute`.
  unfoldable pub execute_plan : FilePath → FilePath → FilePath → List Text → Capture ℕ
  unfolding make_output write_text join start build_mtk_command validate_capture
  execute_plan mtk_root preloader output plan = do
    make_output output
    make_new (output / text "pass1")
    make_new (output / text "pass2")
    write_text (output / text "read-only-plan.txt") (join 10 plan ++ 10 ∷ [])
    (status, _) ← start host (mtk_command mtk_root preloader output) (some output)
    require (status == 0) (mtkclient_failed status)
    validate_capture host output
    pure 0

  abbrev pub finish : FilePath → FilePath → FilePath → List Text → Bool → Capture ℕ
  finish mtk_root preloader output plan true = execute_plan mtk_root preloader output plan
  finish mtk_root preloader output plan false = do
    print (text "Dry run only; pass --execute after attaching the tablet with usbipd-win.")
    pure 0

  -- The checks of the inputs, once the paths are resolved.
  unfoldable pub check_inputs : FilePath → FilePath → FilePath → Capture (Unit {0})
  unfolding parents is_file sha256_of validate_tool
  check_inputs mtk_root preloader output = do
    require (contains (parents output) (host.resolve (text "/rt7-work/recovery")))
        outside_private_root
    found ← gets (λ w. is_file w.files preloader)
    require found (preloader_not_found preloader)
    digest ← sha256_of host.hash preloader
    require (digest == preloader_sha256) wrong_preloader
    validate_tool host mtk_root

  unfoldable pub main : Capture ℕ
  unfolding safe_path check_inputs build_plan validate_read_only_plan print_commands execute_plan
  main = do
    mtk_root ← or_refuse (safe_path host.resolve options.mtk_root (text "mtkclient root"))
    preloader ← or_refuse (safe_path host.resolve options.preloader (text "preloader path"))
    output ← or_refuse (safe_path host.resolve options.output_dir (text "output directory"))
    check_inputs mtk_root preloader output
    or_refuse (validate_read_only_plan (build_plan output) output)
    print (text "Fixed read-only command plan:")
    print_commands (build_plan output)
    finish mtk_root preloader output (build_plan output) options.execute
