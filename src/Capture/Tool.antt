-- ===== src/Capture/Tool.antt =====
-- `validate_tool` of scripts/capture-recovery-baseline.py.
use oukitel_rt7_linux.Prelude.{
  ℕ, zero, suc, Bool, true, false, List, [], ◌∷◌, ◌++◌, Option, none, some, ◌==◌, list_eq, nat_eq,
  ok,
}
use oukitel_rt7_linux.Prelude.Exec.{◌>>=◌, ◌>>◌, pure, raise}
use oukitel_rt7_linux.Python.Text.{Text, text, strip, count}
use oukitel_rt7_linux.Python.Utf8.{decode_utf8}
use oukitel_rt7_linux.Python.Path.{FilePath, ◌/◌, path_str}
use oukitel_rt7_linux.Capture.Defs.{
  CaptureError, called_process_error, unexpected_commit, missing_gpt_patch, missing_usb_patch,
  decode_error,
}
use oukitel_rt7_linux.Capture.Host.{Host, Capture, read}
use oukitel_rt7_linux.Capture.Manifest.{mtkclient_commit, mtkclient_gpt_patch_marker}

abbrev pub mtkclient_usb_patch_marker : Text
mtkclient_usb_patch_marker = text "RT7_CAPTURE_USB_FILTER_V1"

-- A condition, or the exception where it fails.
abbrev pub require : Bool → CaptureError → Capture (Unit {0})
require true e = pure tt
require false e = raise e

-- ["git", "-C", str(mtk_root), "rev-parse", "HEAD"]
abbrev pub git_command : FilePath → List Text
git_command mtk_root =
    text "git" ∷ text "-C" ∷ path_str mtk_root ∷ text "rev-parse" ∷ text "HEAD" ∷ []

abbrev probe : Text
probe =
    text "from mtkclient.config.brom_config import hwconfig; "
    ++ (text "c=hwconfig[0x996]; " ++ text "assert c.dacode==0x6853 and c.name=='MT6853'")

-- [sys.executable, "-c", probe]
abbrev pub probe_command : Text → List Text
probe_command python = python ∷ text "-c" ∷ probe ∷ []

abbrev pub or_decode_error : FilePath → Option Text → Capture Text
or_decode_error path none = raise (decode_error path)
or_decode_error path (some s) = pure s

unfoldable pub read_text : FilePath → Capture Text
unfolding read
read_text path = do bytes ← read path; or_decode_error path (decode_utf8 bytes)

module _ (host : Host) where
  -- A process is noted, and may change files.
  unfoldable pub start : List Text → Option FilePath → Capture (ℕ × Text)
  start command directory w =
      let (status, out, files) = host.run_process command directory w.files in
      (ok (status, out), record w { files = files; commands = w.commands ++ command ∷ [] })

  abbrev pub check_status : ℕ × Text → Capture Text
  check_status (zero, out) = pure out
  check_status (suc n, out) = raise (called_process_error (suc n))

  -- `check_output`, and `run` with `check=True`.
  unfoldable pub checked : List Text → Option FilePath → Capture Text
  unfolding start
  checked command directory = do done ← start command directory; check_status done

  unfoldable pub validate_tool : FilePath → Capture (Unit {0})
  unfolding checked read_text strip count
  validate_tool mtk_root = do
    out ← checked (git_command mtk_root) none
    require (strip out == mtkclient_commit) (unexpected_commit (strip out))
    checked (probe_command host.python) (some mtk_root)
    handler ←
        read_text
          (mtk_root / text "mtkclient" / text "Library" / text "DA" / text "mtk_da_handler.py")
    require (count mtkclient_gpt_patch_marker handler == 1) missing_gpt_patch
    mtk_class ← read_text (mtk_root / text "mtkclient" / text "Library" / text "mtk_class.py")
    require (count mtkclient_usb_patch_marker mtk_class == 1) missing_usb_patch
