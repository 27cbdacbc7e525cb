-- ===== src/BootImage/Arguments.antt =====
-- The argument lists of mkbootimg in scripts/build-test-boot-image.py.
pub mod Replaced
use oukitel_rt7_linux.Prelude.{
  ℕ, ◌≡◌, Bool, true, false, ◌||◌, not, List, [], ◌∷◌, ◌++◌, drop, ◌==◌, list_eq, nat_eq, contains,
  if◌then◌else◌, Result, ok, err, ◌>>=◌, ◌>>◌, raise_if,
}
use oukitel_rt7_linux.Python.Text.{Text, text, strip}
use oukitel_rt7_linux.BootImage.Defs.{BootError, missing_argument, index_error, invalid_suffix}

abbrev prepend : Text → Result BootError (List Text) → Result BootError (List Text)
prepend a r = do rest ← r; ok (a ∷ rest)

abbrev update_head : Text → (Text → Text) → List Text → Result BootError (List Text)
update_head name change [] = err index_error
update_head name change (value ∷ rest) = ok (name ∷ change value ∷ rest)

-- `updated[updated.index(name) + 1] = change(...)`, with the two exceptions that it may raise.
unfoldable pub update_after : Text → (Text → Text) → List Text → Result BootError (List Text)
update_after name change [] = err (missing_argument name)
update_after name change (a ∷ rest) =
    let more = prepend a (update_after name change rest) in
    if a == name then update_head a change rest else more

unfoldable pub replace_argument : List Text → Text → Text → Result BootError (List Text)
unfolding update_after
replace_argument arguments name value = update_after name (λ _. value) arguments

-- `any(character in suffix for character in "\r\n\0")`
abbrev has_line_break : Text → Bool
has_line_break suffix = contains suffix 13 || contains suffix 10 || contains suffix 0

unfoldable pub append_cmdline : List Text → Text → Result BootError (List Text)
unfolding update_after strip
append_cmdline arguments suffix = do
  raise_if (suffix == [] || has_line_break suffix) invalid_suffix
  update_after (text "--cmdline") (λ old. strip (old ++ (text " " ++ suffix))) arguments

-- One round of the loop of `normalized_arguments`: `--kernel` is followed by `<kernel>`.
unfoldable pub normalize : Text → List Text → Result BootError (List Text)
unfolding update_after
normalize name arguments =
    if contains arguments name
    then update_after name (λ _. text "<" ++ (drop 2 name ++ text ">")) arguments
    else ok arguments

unfoldable pub normalized_arguments : List Text → Result BootError (List Text)
unfolding normalize
normalized_arguments arguments = do
  a ← normalize (text "--kernel") arguments
  b ← normalize (text "--ramdisk") a
  c ← normalize (text "--second") b
  normalize (text "--dtb") c
