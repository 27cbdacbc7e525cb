-- ===== src/BootImage/Write.antt =====
-- `write_idempotent` of scripts/build-test-boot-image.py.
pub mod Kept
use oukitel_rt7_linux.Prelude.{
  ℕ, ◌≡◌, Bool, true, false, ◌&&◌, not, Option, none, some, List, [], ◌∷◌, ◌++◌, ◌==◌, list_eq,
  nat_eq, if◌then◌else◌, Result, ok, err,
}
use oukitel_rt7_linux.Prelude.Exec.{Exec}
use oukitel_rt7_linux.Python.Text.{Text, text}
use oukitel_rt7_linux.Python.Bytes.{Bytes}
use oukitel_rt7_linux.Python.Path.{FilePath, file_name, parent}
use oukitel_rt7_linux.Python.Files.{
  Files, Node, read_bytes, exists, is_directory, write_bytes, replace,
}
use oukitel_rt7_linux.BootImage.Defs.{BootError, would_overwrite, os_error}

-- `path.with_name(name)`
unfoldable pub with_name : FilePath → Text → FilePath
with_name [] name = name ∷ []
with_name (_ ∷ []) name = name ∷ []
with_name (p ∷ q ∷ path) name = p ∷ with_name (q ∷ path) name

-- path.with_name(f".{path.name}.tmp")
unfoldable pub temporary_path : FilePath → FilePath
unfolding with_name
temporary_path path = with_name path (text "." ++ (file_name path ++ text ".tmp"))

-- An existing path is read; a directory cannot be.
abbrev keep_existing : FilePath → Bytes → Option Bytes → Exec BootError Files (Unit {0})
keep_existing path content none files = (err (os_error path), files)
keep_existing path content (some old) files =
    if old == content then (ok tt, files) else (err (would_overwrite path), files)

-- The content is written beside the path and moved there. Writing needs a directory to write into,
-- and cannot replace a directory.
abbrev write_beside : FilePath → FilePath → Bytes → Exec BootError Files (Unit {0})
write_beside temporary path content files =
    if is_directory files (parent temporary) && not (is_directory files temporary)
    then (ok tt, replace temporary path content (write_bytes temporary content files))
    else (err (os_error temporary), files)

unfoldable pub write_idempotent : FilePath → Bytes → Exec BootError Files (Unit {0})
unfolding temporary_path parent is_directory
write_idempotent path content files =
    if exists files path
    then keep_existing path content (read_bytes files path) files
    else write_beside (temporary_path path) path content files
