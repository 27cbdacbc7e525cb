-- ===== src/BootImage/Inputs.antt =====
-- What `main` of scripts/build-test-boot-image.py checks before it writes anything.
pub mod Checked
use oukitel_rt7_linux.Prelude.{
  ℕ, ◌+◌, Bool, true, false, ◌&&◌, ◌||◌, not, List, [], ◌∷◌, ◌++◌, Option, none, some, leb,
  contains, ◌==◌, list_eq, nat_eq, map, if◌then◌else◌, Result, ok, err,
}
use mathlib.Core.Option
use oukitel_rt7_linux.Prelude.Exec.{◌>>=◌, ◌>>◌, pure, raise, gets}
use oukitel_rt7_linux.Python.Text.{Text, text, has_infix}
use oukitel_rt7_linux.Python.Path.{FilePath, ◌/◌, file_name, parents}
use oukitel_rt7_linux.Python.Files.{is_file}
use oukitel_rt7_linux.BootImage.Defs.{
  BootError, not_a_file, inside_repository, unsafe_output_name, boot_hash_mismatch,
}
use oukitel_rt7_linux.BootImage.Tools.{Host, World, Build, sha256_of}

-- The parsed options; `none` is an option that was not given.
pub record Options : Type 0 where
  pub boot_img : Text
  pub expected_boot_sha256 : Text
  pub kernel : Text
  pub ramdisk : Option Text
  pub append_cmdline : Option Text
  pub output : Text
  pub tools_dir : Text

-- The resolved paths.
pub record Inputs : Type 0 where
  pub boot_image : FilePath
  pub kernel : FilePath
  pub ramdisk : Option FilePath
  pub output : FilePath
  pub unpack_tool : FilePath
  pub mkbootimg_tool : FilePath
  pub avbtool : FilePath

unfoldable pub resolve_inputs : Host → Options → Inputs
resolve_inputs host options =
    let tools_dir = host.resolve options.tools_dir in
    record {
      boot_image = host.resolve options.boot_img;
      kernel = host.resolve options.kernel;
      ramdisk = Option.map host.resolve options.ramdisk;
      output = host.resolve options.output;
      unpack_tool = tools_dir / text "mkbootimg" / text "unpack_bootimg.py";
      mkbootimg_tool = tools_dir / text "mkbootimg" / text "mkbootimg.py";
      avbtool = tools_dir / text "avb" / text "avbtool.py";
    }

abbrev pub optional_path : Option FilePath → List FilePath
optional_path none = []
optional_path (some path) = path ∷ []

abbrev pub required_paths : Inputs → List FilePath
required_paths inputs =
    inputs.boot_image
    ∷ inputs.kernel
    ∷ inputs.unpack_tool
    ∷ inputs.mkbootimg_tool
    ∷ inputs.avbtool
    ∷ optional_path inputs.ramdisk

-- A condition, or the exception where it fails.
abbrev pub require : Bool → BootError → Build (Unit {0})
require true e = pure tt
require false e = raise e

unfoldable pub check_files : List FilePath → Build (Unit {0})
unfolding is_file
check_files [] = pure tt
check_files (path ∷ paths) = do
  found ← gets (λ w. is_file w.files path)
  require found (not_a_file path)
  check_files paths

unfoldable pub has_safe_name : FilePath → Bool
unfolding has_infix
has_safe_name output =
    has_infix (text "unsigned") (file_name output)
    && has_infix (text "do-not-flash") (file_name output)

-- `s.lower()`, of the ASCII letters: no other character becomes a digit of a digest.
unfoldable pub lower : Text → Text
lower s = map (λ c. if leb 65 c && leb c 90 then c + 32 else c) s

-- From the paths to the digest of the stock image, which it returns.
unfoldable pub check_inputs : Host → Text → Inputs → Build Text
unfolding check_files has_safe_name lower parents sha256_of
check_inputs host expected inputs = do
  check_files (required_paths inputs)
  require (not (contains (parents inputs.output) (text "project" ∷ []))) inside_repository
  require (has_safe_name inputs.output) unsafe_output_name
  actual ← sha256_of host inputs.boot_image
  require (lower actual == lower expected) (boot_hash_mismatch expected actual)
  pure actual
