-- ===== src/BootImage/Tools.antt =====
-- The environment of scripts/build-test-boot-image.py, and its calls of the AOSP tools.
use oukitel_rt7_linux.Prelude.{
  ℕ, zero, suc, ◌+◌, ◌*◌, Bool, true, false, ◌&&◌, Option, none, some, List, [], ◌∷◌, ◌++◌, ◌==◌,
  list_eq, nat_eq, if◌then◌else◌, ok,
}
use mathlib.Core.Option
use oukitel_rt7_linux.Prelude.Exec.{Exec, ◌>>=◌, pure, raise, gets}
use oukitel_rt7_linux.Python.Text.{Text, text, is_space}
use oukitel_rt7_linux.Python.Text.Split.{split}
use oukitel_rt7_linux.Python.Bytes.{Bytes}
use oukitel_rt7_linux.Python.Utf8.{decode_utf8}
use oukitel_rt7_linux.Python.Hash.{Hash, sha256}
use oukitel_rt7_linux.Python.Path.{FilePath, path_str}
use oukitel_rt7_linux.Python.Files.{Files, read_bytes, make_directory, remove_tree}
use oukitel_rt7_linux.BootImage.Defs.{
  BootError, no_original_size, os_error, called_process_error, decode_error,
}

-- What the script does not implement: hashing, path resolution, the interpreter, the tools that it
-- starts (their exit status, their output and what they write), the name of a fresh directory, and
-- the digits of Unicode.
pub record Host : Type 1 where
  pub hash : Hash
  pub resolve : Text → FilePath
  pub python : Text
  pub run_process : List Text → Files → ℕ × Bytes × Files
  pub fresh_directory : FilePath → Files → FilePath
  pub digit : ℕ → Option ℕ

pub record World : Type 0 where
  pub files : Files
  pub printed : List Text

abbrev pub Build : Type 0 → Type 0
Build A = Exec BootError World A

-- The file at a path, or an `OSError`.
abbrev or_os_error : FilePath → Option Bytes → Build Bytes
or_os_error path none = raise (os_error path)
or_os_error path (some bytes) = pure bytes

unfoldable pub read : FilePath → Build Bytes
read path = do found ← gets (λ w. read_bytes w.files path); or_os_error path found

-- A change of the files alone.
unfoldable pub on_files : {A : Type 0} → Exec BootError Files A → Build A
on_files m w = let (r, files) = m w.files in (r, record w { files = files })

-- `with tempfile.TemporaryDirectory(dir=parent)`: it is removed whether the block returns or raises.
unfoldable pub with_temporary : {A : Type 0} → Host → FilePath → (FilePath → Build A) → Build A
unfolding make_directory remove_tree
with_temporary host parent block w =
    let temporary = host.fresh_directory parent w.files in
    let (r, w') = block temporary (record w { files = make_directory temporary w.files }) in
    (r, record w' { files = remove_tree temporary w'.files })

unfoldable pub print : Text → Build (Unit {0})
print line w = (ok tt, record w { printed = w.printed ++ line ∷ [] })

-- `re.search(r"^Original image size:\s+(\d+) bytes$", _, re.MULTILINE)`, the number alone.
module _ (digit : ℕ → Option ℕ) where
  abbrev at_line_end : Text → Bool
  at_line_end [] = true
  at_line_end (c ∷ _) = c == 10

  -- ` bytes$`
  abbrev closes : ℕ → Text → Option ℕ
  closes n (c0 ∷ c1 ∷ c2 ∷ c3 ∷ c4 ∷ c5 ∷ s) =
      if ((c0 ∷ c1 ∷ c2 ∷ c3 ∷ c4 ∷ c5 ∷ []) == text " bytes") && at_line_end s
      then some n
      else none
  closes n _ = none

  -- The rest of `\d+`, with the value so far.
  unfoldable pub more_digits : ℕ → Text → Option ℕ
  more_digits n [] = none
  more_digits n (c ∷ s) = elim (digit c) [
    | none ↦ closes n (c ∷ s)
    | some d ↦ more_digits (n * 10 + d) s
  ]

  unfoldable pub first_digit : Text → Option ℕ
  unfolding more_digits
  first_digit [] = none
  first_digit (c ∷ s) = elim (digit c) [ none ↦ none | some d ↦ more_digits d s ]

  -- `\s*`, taken as far as it goes: no digit is a space.
  unfoldable pub skip_spaces : Text → Option ℕ
  unfolding first_digit
  skip_spaces [] = none
  skip_spaces (c ∷ s) = elim (is_space c) [ true ↦ skip_spaces s | false ↦ first_digit (c ∷ s) ]

  unfoldable pub some_space : Text → Option ℕ
  unfolding skip_spaces
  some_space [] = none
  some_space (c ∷ s) = elim (is_space c) [ true ↦ skip_spaces s | false ↦ none ]

  -- The pattern from its start.
  unfoldable pub match_here : Text → Text → Option ℕ
  unfolding some_space
  match_here [] s = some_space s
  match_here (p ∷ ps) [] = none
  match_here (p ∷ ps) (c ∷ s) = let rest = match_here ps s in if p == c then rest else none

  abbrev first_of_two : Option ℕ → Option ℕ → Option ℕ
  first_of_two (some n) other = some n
  first_of_two none other = other

  -- The first line start at which it matches; the flag says that a line starts here.
  unfoldable pub search_size : Bool → Text → Option ℕ
  unfolding match_here
  search_size line_start [] = none
  search_size line_start (c ∷ s) =
      let later = search_size (c == 10) s in
      let here = match_here (text "Original image size:") (c ∷ s) in
      if line_start then first_of_two here later else later

module _ (host : Host) where
  abbrev check_status : ℕ → Bytes → Build Bytes
  check_status zero out = pure out
  check_status (suc n) out = raise (called_process_error (suc n))

  -- `run(command)`, `subprocess.run` with `check=True`.
  unfoldable pub run : List Text → Build Bytes
  run command w =
      let (status, out, files) = host.run_process command w.files in
      check_status status out (record w { files = files })

  unfoldable pub sha256_of : FilePath → Build Text
  unfolding read
  sha256_of path = do bytes ← read path; pure (sha256 host.hash bytes)

  abbrev or_decode_error : {A : Type 0} → Option A → Build A
  or_decode_error none = raise decode_error
  or_decode_error (some a) = pure a

  -- `if items and items[-1] == b"": items.pop()`
  unfoldable pub drop_last_empty : List Bytes → List Bytes
  drop_last_empty [] = []
  drop_last_empty (b ∷ []) = if b == [] then [] else b ∷ []
  drop_last_empty (b ∷ c ∷ items) = b ∷ drop_last_empty (c ∷ items)

  unfoldable pub decode_all : List Bytes → Option (List Text)
  decode_all [] = some []
  decode_all (b ∷ items) =
      Option.bind (decode_utf8 b)
        (λ s. Option.map (λ (rest : List Text). s ∷ rest) (decode_all items))

  unfoldable pub unpack_args : FilePath → FilePath → FilePath → Build (List Text)
  unfolding run drop_last_empty decode_all
  unpack_args unpack_tool image output = do
    out ← run (
        host.python
        ∷ path_str unpack_tool
        ∷ text "--boot_img"
        ∷ path_str image
        ∷ text "--out"
        ∷ path_str output
        ∷ text "--format=mkbootimg"
        ∷ text "-0"
        ∷ [])
    or_decode_error (decode_all (drop_last_empty (split 0 out)))

  abbrev or_no_size : Text → Option ℕ → Build (ℕ × Text)
  or_no_size output none = raise no_original_size
  or_no_size output (some n) = pure (n, output)

  unfoldable pub original_payload_size : FilePath → FilePath → Build (ℕ × Text)
  unfolding run search_size
  original_payload_size avbtool image = do
    out ←
        run (
          host.python ∷ path_str avbtool ∷ text "info_image" ∷ text "--image" ∷ path_str image ∷ [])
    output ← or_decode_error (decode_utf8 out)
    or_no_size output (search_size host.digit true output)
