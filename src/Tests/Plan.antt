-- ===== src/Tests/Plan.antt =====
-- The read-only plan for an output directory.
use oukitel_rt7_linux.Prelude.{
  ◌≡◌, refl, true, false, ok, All, contains, [], ◌∷◌, list_beq, list_eq, nat_eq,
}
use oukitel_rt7_linux.Python.Text.{text}
use oukitel_rt7_linux.Python.Text.Split.{split}
use oukitel_rt7_linux.Python.Path.{FilePath, path_str}
use oukitel_rt7_linux.Plan.{space, build_plan, validate_read_only_plan}
use oukitel_rt7_linux.Plan.Allowlist.{validate_read_only_plan_iff}
use oukitel_rt7_linux.Plan.Reads.{
  ReadCommand, Reads, excluded, validate_read_only_plan-ReadCommand,
  validate_read_only_plan-excluded,
}

abbrev output : FilePath
output = text "rt7" ∷ text "capture" ∷ []

spaceless : contains (path_str output) space ≡ false
unfolding path_str contains
spaceless = refl

accepted : validate_read_only_plan (build_plan output) output ≡ ok tt
accepted = (validate_read_only_plan_iff (build_plan output) output).1 (refl, spaceless)

excludes : contains excluded (text "nvram") ≡ true
unfolding contains list_beq
excludes = refl

validate_read_only_plan_iff_example : validate_read_only_plan (build_plan output) output ≡ ok tt
validate_read_only_plan_iff_example =
    (validate_read_only_plan_iff (build_plan output) output).1 (refl, spaceless)

validate_read_only_plan-ReadCommand_example :
    All (λ command. ReadCommand output (split space command)) (build_plan output)
validate_read_only_plan-ReadCommand_example =
    validate_read_only_plan-ReadCommand (build_plan output) output accepted

validate_read_only_plan-excluded_example :
    All (λ command. ¬ (Reads (split space command) (text "nvram"))) (build_plan output)
validate_read_only_plan-excluded_example =
    validate_read_only_plan-excluded (build_plan output) output (text "nvram") accepted excludes
