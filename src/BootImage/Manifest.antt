-- ===== src/BootImage/Manifest.antt =====
-- The manifest that scripts/build-test-boot-image.py writes beside its output.
use mathlib.Core.List.{reverse}
use oukitel_rt7_linux.Prelude.{
  ℕ, Bool, false, ◌&&◌, ◌||◌, not, List, [], ◌∷◌, ◌++◌, leb, ◌==◌, nat_eq, list_eq, if◌then◌else◌,
}
use oukitel_rt7_linux.Python.Text.{Text, text, lstrip}
use oukitel_rt7_linux.Python.Json.{Json, Items, str, num, bool, arr, obj, nil, item, end, field}

-- One file that the manifest describes.
pub record Described : Type 0 where
  pub filename : Text
  pub sha256 : Text
  pub size : ℕ

abbrev ends_line : ℕ → Bool
ends_line c =
    (leb 10 c && leb c 13)
    || ((leb 28 c && leb c 30) || ((c == 0x85) || ((c == 0x2028) || (c == 0x2029))))

-- The lines, with what stands in the one at hand; the flag says that a carriage return came last.
unfoldable pub lines_from : Bool → Text → Text → List Text
lines_from after_return line [] = if line == [] then [] else line ∷ []
lines_from after_return line (c ∷ s) =
    let joined = after_return && (c == 10) in
    let breaks = not joined && ends_line c in
    let rest =
      lines_from (breaks && (c == 13))
        (if joined then line else if breaks then [] else line ++ c ∷ []) s in
    if breaks then line ∷ rest else rest

-- `s.splitlines()`
unfoldable pub splitlines : Text → List Text
unfolding lines_from
splitlines s = lines_from false [] s

unfoldable pub rstrip : Text → Text
unfolding lstrip
rstrip s = reverse (lstrip (reverse s))

unfoldable pub texts : List Text → Items
texts [] = nil
texts (s ∷ rest) = item (str s) (texts rest)

-- The dictionary `manifest`.
unfoldable pub manifest :
    Text → ℕ → Text → ℕ → Described → Described → Bool → Described → List Text → Text → Json
unfolding texts splitlines rstrip
manifest boot_name partition_size boot_hash payload_size kernel ramdisk personalized output
      arguments avb_info =
    obj (
      field (text "format") (num 2) (
        field (text "warning") (str (text "UNSIGNED RESEARCH ARTIFACT - DO NOT FLASH")) (
          field (text "source_boot")
            (obj (
              field (text "filename") (str boot_name) (
                field (text "sha256") (str boot_hash) (
                  field (text "partition_size") (num partition_size)
                    (field (text "avb_original_image_size") (num payload_size) end)))))
            (field (text "kernel")
              (obj (
                field (text "filename") (str kernel.filename) (
                  field (text "sha256") (str kernel.sha256)
                    (field (text "size") (num kernel.size) end))))
              (field (text "ramdisk")
                (obj (
                  field (text "filename") (str ramdisk.filename) (
                    field (text "sha256") (str ramdisk.sha256) (
                      field (text "size") (num ramdisk.size)
                        (field (text "personalized") (bool personalized) end)))))
                (field (text "output")
                  (obj (
                    field (text "filename") (str output.filename) (
                      field (text "sha256") (str output.sha256) (
                        field (text "size") (num output.size) (
                          field (text "avb_signed") (bool false)
                            (field (text "flashable") (bool false) end))))))
                  (field (text "mkbootimg_arguments") (arr (texts arguments)) (
                    field (text "avb_info") (arr (texts (splitlines (rstrip avb_info)))) end))))))))
