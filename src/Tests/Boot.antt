-- ===== src/Tests/Boot.antt =====
-- The argument lists, the comparison and the writing of files on small data.
use oukitel_rt7_linux.Prelude.{
  ◌≡◌, ◌&&◌, not, inl, refl, List, [], ◌∷◌, ◌++◌, append_assoc, append-nil, some, none, ok,
  list_beq, if◌then◌else◌, ◌==◌, list_eq, nat_eq,
}
use oukitel_rt7_linux.Python.Text.{Text, text, hex}
use oukitel_rt7_linux.Python.Bytes.{Bytes}
use oukitel_rt7_linux.Python.Hash.{Hash, IsLawful, sha256, sha256-eq-digest}
use oukitel_rt7_linux.Python.Path.{FilePath, parent}
use oukitel_rt7_linux.Python.Dict.{lookup}
use oukitel_rt7_linux.Python.Files.{Files, file, directory, exists, is_directory, read_bytes}
use oukitel_rt7_linux.BootImage.Compare.{files_equal, cut, files_equal-eq-beq}
use oukitel_rt7_linux.BootImage.Arguments.{replace_argument, normalized_arguments}
use oukitel_rt7_linux.BootImage.Arguments.Replaced.{
  IsUpdated, replace_argument_iff, normalized_arguments-replace_kernel,
}
use oukitel_rt7_linux.BootImage.Write.{with_name, temporary_path, write_idempotent}
use oukitel_rt7_linux.BootImage.Write.Kept.{
  IsWritable, write_idempotent_iff, lookup-write_idempotent, read_bytes-write_idempotent,
}

-- A hash object that keeps what it was given.
abbrev keeping : Hash
keeping = record { State = Bytes; start = []; update = λ s b. s ++ b; hexdigest = hex }

keeping-IsLawful : IsLawful keeping
keeping-IsLawful = record { update_nil = append-nil; update_append = λ s a b. append_assoc s a b }

sha256-eq-digest_example : sha256 keeping (1 ∷ 2 ∷ []) ≡ hex ([] ++ 1 ∷ 2 ∷ [])
sha256-eq-digest_example = sha256-eq-digest keeping keeping-IsLawful (1 ∷ 2 ∷ [])

abbrev arguments : List Text
arguments = text "--kernel" ∷ text "k" ∷ text "--cmdline" ∷ text "a" ∷ []

abbrev updated : List Text
updated = text "--kernel" ∷ text "new" ∷ text "--cmdline" ∷ text "a" ∷ []

replaced : replace_argument arguments (text "--kernel") (text "new") ≡ ok updated
unfolding replace_argument list_beq
replaced = refl

files_equal-eq-beq_example :
    files_equal (1 ∷ 2 ∷ []) (1 ∷ 3 ∷ []) (some 1)
    ≡ some (cut (some 1) (1 ∷ 2 ∷ []) == cut (some 1) (1 ∷ 3 ∷ []))
files_equal-eq-beq_example = files_equal-eq-beq (1 ∷ 2 ∷ []) (1 ∷ 3 ∷ []) (some 1)

replace_argument_iff_example : IsUpdated (text "--kernel") (λ _. text "new") arguments updated
replace_argument_iff_example =
    (replace_argument_iff arguments updated (text "--kernel") (text "new")).0 replaced

normalized_arguments-replace_kernel_example :
    normalized_arguments updated ≡ normalized_arguments arguments
normalized_arguments-replace_kernel_example =
    normalized_arguments-replace_kernel (text "new") arguments updated replaced

abbrev output : FilePath
output = text "out" ∷ text "boot.img" ∷ []

abbrev files : Files
files = (text "out" ∷ [], directory) ∷ []

writable : IsWritable output files
unfolding exists is_directory parent temporary_path with_name lookup list_beq
writable = record { free = refl; placed = refl; beside = refl }

written : (write_idempotent output (5 ∷ []) files).0 ≡ ok tt
written = (write_idempotent_iff output (5 ∷ []) files).1 (inl writable)

write_idempotent_iff_example : (write_idempotent output (5 ∷ []) files).0 ≡ ok tt
write_idempotent_iff_example = (write_idempotent_iff output (5 ∷ []) files).1 (inl writable)

lookup-write_idempotent_example : lookup output (write_idempotent output (5 ∷ []) files).1 ≡ (
    if exists files output
    then lookup output files
    else if not
        (is_directory files (parent output) && not (is_directory files (temporary_path output)))
    then lookup output files
    else if list_beq output output
    then some (file (5 ∷ []))
    else if list_beq output (temporary_path output)
    then none
    else lookup output files)
lookup-write_idempotent_example = lookup-write_idempotent output (5 ∷ []) files output

read_bytes-write_idempotent_example :
    read_bytes (write_idempotent output (5 ∷ []) files).1 output ≡ some (5 ∷ [])
read_bytes-write_idempotent_example = read_bytes-write_idempotent output (5 ∷ []) files written
