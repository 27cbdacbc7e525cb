-- ===== src/Capture/Manifest.antt =====
-- The slot comparison and the manifest that `validate_capture` of
-- scripts/capture-recovery-baseline.py writes.
use oukitel_rt7_linux.Prelude.{
  ℕ, Bool, List, [], ◌∷◌, ◌++◌, Option, none, some, map, ◌==◌, list_eq, nat_eq, Result, ok, err,
  ◌>>=◌,
}
use oukitel_rt7_linux.Python.Text.{Text, text}
use oukitel_rt7_linux.Python.Dict.{Dict, lookup}
use oukitel_rt7_linux.Python.Json.{
  Json, Items, Fields, str, num, bool, arr, obj, nil, item, end, field,
}
use oukitel_rt7_linux.Gpt.Defs.{GptInfo, PartitionInfo}
use oukitel_rt7_linux.Plan.{capture_passes}
use oukitel_rt7_linux.Capture.Defs.{CaptureError, key_error}

-- One artifact; `verified_copies` is the number of passes.
pub record Artifact : Type 0 where
  pub size : ℕ
  pub sha256 : Text

abbrev digest_or_error : Text → Option Artifact → Result CaptureError Text
digest_or_error name none = err (key_error name)
digest_or_error name (some artifact) = ok artifact.sha256

-- `artifacts[a]["sha256"] == artifacts[b]["sha256"]`
unfoldable pub same_digest : Dict Text Artifact → Text → Text → Result CaptureError Bool
unfolding lookup
same_digest artifacts a b = do
  x ← digest_or_error a (lookup a artifacts)
  y ← digest_or_error b (lookup b artifacts)
  ok (x == y)

abbrev pub slotted : List Text
slotted =
    text "boot"
    ∷ text "dtbo"
    ∷ text "lk"
    ∷ text "tee"
    ∷ text "vbmeta"
    ∷ text "vbmeta_system"
    ∷ text "vbmeta_vendor"
    ∷ []

unfoldable pub compare_bases : Dict Text Artifact → List Text → Result CaptureError (Dict Text Bool)
unfolding same_digest
compare_bases artifacts [] = do
  same ← same_digest artifacts (text "preloader_lu0.bin") (text "preloader_lu1.bin")
  ok ((text "preloader_lu0_lu1", same) ∷ [])
compare_bases artifacts (base ∷ bases) = do
  same ← same_digest artifacts (base ++ text "_a.bin") (base ++ text "_b.bin")
  rest ← compare_bases artifacts bases
  ok ((base, same) ∷ rest)

-- slot_comparisons
unfoldable pub compare_slots : Dict Text Artifact → Result CaptureError (Dict Text Bool)
unfolding compare_bases
compare_slots artifacts = compare_bases artifacts slotted

unfoldable pub items_of : List Json → Items
items_of [] = nil
items_of (value ∷ values) = item value (items_of values)

unfoldable pub fields_of : {A : Type 0} → (A → Json) → Dict Text A → Fields
fields_of write [] = end
fields_of write ((key, a) ∷ d) = field key (write a) (fields_of write d)

abbrev artifact_json : Artifact → Json
artifact_json a = obj (
    field (text "size") (num a.size)
      (field (text "sha256") (str a.sha256) (field (text "verified_copies") (num 2) end)))

abbrev partition_json : PartitionInfo → Json
partition_json p = obj (
    field (text "first_lba") (num p.first_lba)
      (field (text "last_lba") (num p.last_lba) (field (text "size") (num p.size) end)))

abbrev gpt_json : GptInfo → Json
gpt_json g = obj (
    field (text "sector_size") (num g.sector_size) (
      field (text "disk_guid") (str g.disk_guid) (
        field (text "primary_lba") (num g.primary_lba) (
          field (text "backup_lba") (num g.backup_lba) (
            field (text "first_usable_lba") (num g.first_usable_lba) (
              field (text "last_usable_lba") (num g.last_usable_lba)
                (field (text "partitions") (obj (fields_of partition_json g.partitions)) end)))))))

abbrev pub mtkclient_commit : Text
mtkclient_commit = text "4d29037104b1f378abedcace89ccd48e8a8aa314"

abbrev pub mtkclient_gpt_patch_marker : Text
mtkclient_gpt_patch_marker = text "RT7_CAPTURE_GPT_V1"

unfoldable pub capture_manifest : Dict Text Artifact → GptInfo → Dict Text Bool → Json
unfolding fields_of items_of
capture_manifest artifacts gpt slot_comparisons = obj (
    field (text "format") (num 2) (
      field (text "mtkclient_commit") (str mtkclient_commit) (
        field (text "gpt_capture_patch") (str mtkclient_gpt_patch_marker) (
          field (text "read_passes") (arr (items_of (map str capture_passes))) (
            field (text "artifacts") (obj (fields_of artifact_json artifacts)) (
              field (text "gpt") (gpt_json gpt) (
                field (text "slot_images_identical") (obj (fields_of bool slot_comparisons))
                  end)))))))
