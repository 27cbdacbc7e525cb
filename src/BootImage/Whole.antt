-- ===== src/BootImage/Whole.antt =====
-- What a run of scripts/build-test-boot-image.py that returns has made sure of.
use oukitel_rt7_linux.Prelude.{ℕ, ◌≡◌, refl, Result, ok, err, list_eq, nat_eq}
use oukitel_rt7_linux.Prelude.Exec.{>>=-returns}
use oukitel_rt7_linux.Python.Files.{Files}
use oukitel_rt7_linux.BootImage.Defs.{BootError}
use oukitel_rt7_linux.BootImage.Tools.{Host, World}
use oukitel_rt7_linux.BootImage.Inputs.{Options, resolve_inputs, check_inputs}
use oukitel_rt7_linux.BootImage.Inputs.Checked.{IsChecked, check_inputs-IsChecked}
use oukitel_rt7_linux.BootImage.Main.{main_on, main}

-- What the outcome says of the files at the start.
abbrev pub Judged : Host → Options → Files → Result BootError ℕ → Type 0
Judged host options files (ok _) =
    IsChecked host options.expected_boot_sha256 (resolve_inputs host options) files
Judged host options files (err _) = Unit

-- A run returns only if every input was a file, the output stands outside the repository and has
-- both words of the warning in its name, and the stock image has the expected digest. Else it
-- raises.
pub main-Judged :
    (host : Host) (options : Options) (w : World)
    → Judged host options w.files (main host options w).0
unfolding main main_on
main-Judged host options w = judged (main host options w).0 (λ code h. checked code h)
  where
    checked :
        (code : ℕ)
        → (main host options w).0 ≡ ok code
        → IsChecked host options.expected_boot_sha256 (resolve_inputs host options) w.files
    checked code h =
        let inputs = resolve_inputs host options in
        let (actual, r, _) =
          >>=-returns (check_inputs host options.expected_boot_sha256 inputs) _ w h in
        check_inputs-IsChecked host options.expected_boot_sha256 inputs w actual r

    judged :
        (r : Result BootError ℕ)
        → ((code : ℕ)
            → r ≡ ok code
            → IsChecked host options.expected_boot_sha256 (resolve_inputs host options) w.files)
        → Judged host options w.files r
    judged (ok code) h = h code refl
    judged (err e) h = tt
