-- ===== src/Handshake/Probe.antt =====
-- The rest of scripts/probe-mtk-handshake.py: the backend, the configuration, the interface and
-- `main`.
use oukitel_rt7_linux.Prelude.{
  ℕ, suc, zero, Bool, true, false, not, [], ◌∷◌, Option, none, some, nat_eq, if◌then◌else◌, ok, err,
  Result,
}
use oukitel_rt7_linux.Prelude.Exec.{◌>>=◌, ◌>>◌, pure, raise, attempt, lift}
use oukitel_rt7_linux.Python.Text.{Text, text, has_infix}
use oukitel_rt7_linux.Python.Bytes.{Bytes}
use oukitel_rt7_linux.Handshake.Usb.{
  Usb, Probe, Exception, Device, Configuration, call, print, usb_error, runtime_error,
  not_implemented, get_configuration, set_configuration, driver_active, detach_driver, claim,
  control, control_sent, control_ignored, banner, no_backend_option, usbdk_backend, detected,
  summary, using_interface, handshake_failed, handshake_succeeded, probe_failed,
}
use oukitel_rt7_linux.Handshake.Endpoints.{find_endpoint_pair}
use oukitel_rt7_linux.Handshake.Wait.{wait_for_transport}
use oukitel_rt7_linux.Handshake.Sync.{run_handshake}

-- The platform: whether it is Windows, whether libusb is there, and what `libusb_set_option` gives
-- (`none` is an `AttributeError` or an `OSError`).
pub record Platform : Type 0 where
  pub win32 : Bool
  pub has_backend : Bool
  pub set_option : Option ℕ

abbrev pub line_coding : Bytes
line_coding = 0x00 ∷ 0x10 ∷ 0x0E ∷ 0x00 ∷ 0x00 ∷ 0x00 ∷ 0x08 ∷ []

module _ (usb : Usb) where
  abbrev pub enable_usbdk : Option ℕ → Probe usb (Unit {0})
  enable_usbdk none = raise (runtime_error (text "cannot enable the UsbDk backend"))
  enable_usbdk (some zero) = print usb usbdk_backend
  enable_usbdk (some (suc n)) =
      raise (runtime_error (text "enabling the UsbDk backend returned an error"))

  unfoldable pub load_backend : Platform → Probe usb (Unit {0})
  load_backend platform =
      if not platform.has_backend
      then raise (runtime_error (text "libusb-1.0 backend is unavailable"))
      else if platform.win32
      then enable_usbdk platform.set_option
      else print usb no_backend_option

  unfoldable pub get_active : Device → Probe usb Configuration
  unfolding call
  get_active device = call usb get_configuration (usb.get_active_configuration device)

  abbrev pub or_configure : Device → Result Exception Configuration → Probe usb Configuration
  or_configure device (ok configuration) = pure configuration
  or_configure device (err (usb_error message)) =
      if has_infix (text "Configuration not set") message
      then (do call usb set_configuration (usb.set_configuration device); get_active device)
      else raise (usb_error message)
  or_configure device (err other) = raise other

  unfoldable pub prepare_configuration : Device → Probe usb Configuration
  unfolding get_active
  prepare_configuration device = do active ← attempt (get_active device); or_configure device active

  unfoldable pub print_summary : Configuration → Probe usb (Unit {0})
  print_summary [] = pure tt
  print_summary (interface ∷ rest) = do print usb (summary interface); print_summary rest

  abbrev pub detach_if : Device → ℕ → Bool → Probe usb (Unit {0})
  detach_if device number true =
      call usb (detach_driver number) (usb.detach_kernel_driver device number)
  detach_if device number false = pure tt

  unfoldable pub release_driver : Device → ℕ → Probe usb (Unit {0})
  unfolding call
  release_driver device number = do
    active ← call usb (driver_active number) (usb.is_kernel_driver_active device number)
    detach_if device number active

  -- `except (NotImplementedError, usb.core.USBError): pass`
  abbrev pub ignore_usb : Result Exception (Unit {0}) → Probe usb (Unit {0})
  ignore_usb (ok _) = pure tt
  ignore_usb (err (usb_error _)) = pure tt
  ignore_usb (err not_implemented) = pure tt
  ignore_usb (err other) = raise other

  unfoldable pub claim_interface : Device → ℕ → Probe usb (Unit {0})
  unfolding release_driver
  claim_interface device number = do
    released ← attempt (release_driver device number)
    ignore_usb released
    call usb (claim number) (usb.claim_interface device number)

  abbrev pub print_control : Text → Result Exception ℕ → Probe usb (Unit {0})
  print_control label (ok sent) = print usb (control_sent label sent)
  print_control label (err (usb_error message)) =
      print usb (control_ignored label (usb_error message))
  print_control label (err other) = raise other

  unfoldable pub send_control : Device → Text → ℕ → ℕ → Bytes → Probe usb (Unit {0})
  unfolding call
  send_control device label request value payload = do
    sent ← attempt (
        call usb (control 0x21 request value 0 payload)
          (usb.ctrl_transfer device 0x21 request value 0 payload))
    print_control label sent

  unfoldable pub configure_cdc : Device → Probe usb (Unit {0})
  unfolding send_control
  configure_cdc device = do
    send_control device (text "SET_LINE_CODING") 0x20 0 line_coding
    send_control device (text "SET_CONTROL_LINE_STATE") 0x01 2 []

  abbrev pub exit_code : Bool → Probe usb (Option ℕ)
  exit_code true = do print usb handshake_succeeded; pure (some 0)
  exit_code false = do print usb handshake_failed; pure (some 2)

  -- What `main` does with the device that it found.
  unfoldable pub probe_device : Device → Probe usb (Option ℕ)
  unfolding prepare_configuration print_summary claim_interface configure_cdc
  probe_device device = do
    print usb (detected device)
    configuration ← prepare_configuration device
    print_summary configuration
    pair ← lift (find_endpoint_pair usb configuration)
    print usb (using_interface pair.interface_number)
    claim_interface device pair.interface_number
    configure_cdc device
    good ← run_handshake usb pair
    exit_code good

  abbrev pub probe_found : Option Device → Probe usb (Option ℕ)
  probe_found none = pure none
  probe_found (some device) = probe_device device

  -- The body of the `try` of `main`. `none` stands for a wait whose fuel ran out.
  unfoldable pub try_probe : Platform → ℕ → ℕ → Probe usb (Option ℕ)
  unfolding load_backend probe_device
  try_probe platform timeout interval = do
    load_backend platform
    found ← wait_for_transport usb timeout interval
    probe_found found

  -- `except (RuntimeError, TimeoutError, usb.core.USBError)`, which is any of these exceptions.
  abbrev pub exit_of : Result Exception (Option ℕ) → Probe usb (Option ℕ)
  exit_of (ok code) = pure code
  exit_of (err error) = do print usb (probe_failed error); pure (some 1)

  unfoldable pub main : Platform → ℕ → ℕ → Probe usb (Option ℕ)
  unfolding try_probe
  main platform timeout interval = do
    print usb banner
    outcome ← attempt (try_probe platform timeout interval)
    exit_of outcome
