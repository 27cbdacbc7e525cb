-- ===== src/Capture/Both/Agreed.antt =====
-- What a capture is that `validate_capture` accepts, and its other outcomes.
use oukitel_rt7_linux.Prelude.{◌≡◌, ◌⊎◌, list_eq, nat_eq, Result, ok, err, All}
use oukitel_rt7_linux.Prelude.Raises.{Raises}
use oukitel_rt7_linux.Python.Text.{Text, text}
use oukitel_rt7_linux.Python.Hash.{Hash}
use oukitel_rt7_linux.Python.Path.{FilePath, ◌/◌}
use oukitel_rt7_linux.Python.Files.{Files, glob_bin}
use oukitel_rt7_linux.Gpt.Defs.{GptInfo}
use oukitel_rt7_linux.Capture.Defs.{CaptureError, passes_differ}
use oukitel_rt7_linux.Capture.Pass.Sound.{IsPass}
use oukitel_rt7_linux.Capture.Host.{Host, World, Capture}
use oukitel_rt7_linux.Capture.Both.Digests.{IsAgreed}
use oukitel_rt7_linux.Capture.Both.Gpts.{SameGpt}
use oukitel_rt7_linux.Capture.Both.Raised.{CannotWrite}

pub record IsCapture (hash : Hash) (files : Files) (output : FilePath) : Type 0 where
  pub gpt1 : GptInfo
  pub gpt2 : GptInfo
  pub pass1 : IsPass files (output / text "pass1") gpt1
  pub pass2 : IsPass files (output / text "pass2") gpt2
  pub one_gpt : SameGpt gpt1 gpt2
  pub agreed : All (IsAgreed hash files output) (glob_bin files (output / text "pass1"))

-- Two complete passes with different GPTs.
pub record AreDifferent (files : Files) (output : FilePath) : Type 0 where
  pub gpt1 : GptInfo
  pub gpt2 : GptInfo
  pub pass1 : IsPass files (output / text "pass1") gpt1
  pub pass2 : IsPass files (output / text "pass2") gpt2
  pub two_gpts : ¬ SameGpt gpt1 gpt2

module _ (host : Host) (output : FilePath) where
  -- The exceptions of the checks. `passes_differ` says something of the files.
  abbrev pub Refused : Files → CaptureError → Type 0
  Refused files passes_differ = AreDifferent files output
  Refused files _ = Unit

  -- What an outcome says of the files, and of the world that is left.
  abbrev pub Judged : World → Result CaptureError (Unit {0}) × World → Type 0
  Judged start (ok _, w) = IsCapture host.hash start.files output
  Judged start (err e, w) = ((w ≡ start) × Refused start.files e) ⊎ CannotWrite e
