-- ===== src/Capture/Host.antt =====
-- The environment of scripts/capture-recovery-baseline.py.
use oukitel_rt7_linux.Prelude.{
  ℕ, List, [], ◌∷◌, ◌++◌, Option, none, some, ltb, list_eq, nat_eq, if◌then◌else◌, ok, err,
}
use oukitel_rt7_linux.Prelude.Exec.{Exec, ◌>>=◌, pure, raise, gets}
use oukitel_rt7_linux.Python.Text.{Text}
use oukitel_rt7_linux.Python.Bytes.{Bytes}
use oukitel_rt7_linux.Python.Dict
use oukitel_rt7_linux.Python.Hash.{Hash, sha256}
use oukitel_rt7_linux.Python.Path.{FilePath, parent}
use oukitel_rt7_linux.Python.Files.{
  Files, Node, file, directory, is_directory, read_bytes, write_bytes,
}
use oukitel_rt7_linux.Plan.{any_char}
use oukitel_rt7_linux.Capture.Defs.{CaptureError, os_error, encode_error}

-- What the script does not implement: hashing, path resolution, the interpreter, and the processes
-- that it starts, with a working directory or none: their exit status, output and effect on files.
pub record Host : Type 1 where
  pub hash : Hash
  pub resolve : Text → FilePath
  pub python : Text
  pub run_process : List Text → Option FilePath → Files → ℕ × Text × Files

pub record World : Type 0 where
  pub files : Files
  pub printed : List Text
  -- The commands that were started.
  pub commands : List (List Text)

abbrev pub Capture : Type 0 → Type 0
Capture A = Exec CaptureError World A

abbrev pub or_os_error : FilePath → Option Bytes → Capture Bytes
or_os_error path none = raise (os_error path)
or_os_error path (some bytes) = pure bytes

unfoldable pub read : FilePath → Capture Bytes
read path = do found ← gets (λ w. read_bytes w.files path); or_os_error path found

unfoldable pub sha256_of : Hash → FilePath → Capture Text
unfolding read
sha256_of hash path = do bytes ← read path; pure (sha256 hash bytes)

unfoldable pub print : Text → Capture (Unit {0})
print line w = (ok tt, record w { printed = w.printed ++ line ∷ [] })

abbrev set_file : FilePath → Bytes → World → World
set_file path bytes w = record w { files = write_bytes path bytes w.files }

-- The file is emptied first.
abbrev pub write_ascii : FilePath → Text → Capture (Unit {0})
write_ascii path content w =
    if any_char (λ c. ltb 127 c) content
    then (err (encode_error path), set_file path [] w)
    else (ok tt, set_file path content w)

-- A new file needs a directory to stand in.
abbrev pub write_over : FilePath → Text → Option Node → Capture (Unit {0})
write_over path content (some directory) w = (err (os_error path), w)
write_over path content (some (file _)) w = write_ascii path content w
write_over path content none w =
    if is_directory w.files (parent path)
    then write_ascii path content w
    else (err (os_error path), w)

-- `path.write_text(content, encoding="ascii", newline="\n")`
unfoldable pub write_text : FilePath → Text → Capture (Unit {0})
unfolding any_char is_directory parent
write_text path content w = write_over path content (Dict.lookup path w.files) w
