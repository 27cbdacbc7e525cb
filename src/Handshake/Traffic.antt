-- ===== src/Handshake/Traffic.antt =====
-- The calls of scripts/probe-mtk-handshake.py to pyusb that are allowed, and that single calls keep to them.
pub mod Setup
pub mod Rounds
pub mod Whole
use oukitel_rt7_linux.Prelude.{
  ℕ, zero, suc, ◌+◌, ◌≡◌, ◌⊎◌, inl, inr, refl, Bool, true, false, List, [], ◌∷◌, ◌++◌, Option, none,
  some, Result, ok, err, ltb, All, All-append, contains, nat_eq, Bool-cases, Option-cases,
  if◌then◌else◌, arith,
}
use oukitel_rt7_linux.Prelude.Exec.{
  Keeps, Keeps-pure, Keeps-raise, Keeps-bind, Keeps-attempt, ◌>>=◌, attempt, continue, pure, raise,
  lift, ◌>>◌,
}
use oukitel_rt7_linux.Python.Text.{Text, text, has_infix}
use oukitel_rt7_linux.Python.Bytes.{Bytes}
use oukitel_rt7_linux.Handshake.Usb.{
  Usb, World, Probe, Call, Line, Exception, Device, Configuration, Interface, call, print,
  bulk_write, control, usb_error, runtime_error, timeout_error, not_implemented, find_devices,
  get_configuration, set_configuration, driver_active, detach_driver, claim, bulk_read,
}
use oukitel_rt7_linux.Handshake.Endpoints.{EndpointPair, find_endpoint_pair}
use oukitel_rt7_linux.Handshake.Wait.{
  vid_mediatek, first_match, poll, sleep, wait_loop, wait_for_transport,
}
use oukitel_rt7_linux.Handshake.Wait.Found.{
  after_poll, after_sleep, wait_loop_late, wait_loop_found, wait_loop_again,
}
use oukitel_rt7_linux.Handshake.Sync.{
  start_command, exchange, judge, report, sync_byte, sync_loop, run_handshake,
}
use oukitel_rt7_linux.Handshake.Probe.{
  Platform, line_coding, load_backend, enable_usbdk, get_active, or_configure,
  prepare_configuration, print_summary, detach_if, release_driver, ignore_usb, claim_interface,
  print_control, send_control, configure_cdc, exit_code, probe_device, probe_found, try_probe,
  exit_of, main,
}

-- A control transfer of `configure_cdc`.
abbrev pub IsCdc : ℕ → ℕ → ℕ → ℕ → Bytes → Type 0
IsCdc kind request value index payload =
    (kind ≡ 0x21)
    × (index ≡ 0)
    × (((request ≡ 0x20) × (value ≡ 0) × (payload ≡ line_coding))
        ⊎ ((request ≡ 0x01) × (value ≡ 2) × (payload ≡ [])))

-- A call that the probe may make: no bulk write but of one start byte, and no control transfer but
-- the two that set up the line.
abbrev pub IsProbeCall : Call → Type 0
IsProbeCall (bulk_write _ bytes) =
    (value : ℕ) × (bytes ≡ value ∷ []) × (contains start_command value ≡ true)
IsProbeCall (control kind request value index payload) = IsCdc kind request value index payload
IsProbeCall _ = Unit

module _ (usb : Usb) where
  abbrev pub OnlyProbes : World usb.Bus → Type 0
  OnlyProbes w = All IsProbeCall w.trace

  module _ {A : Type 0} where
    pub call-OnlyProbes :
        (c : Call) (operation : usb.Bus → Result Exception A × usb.Bus)
        → IsProbeCall c
        → Keeps OnlyProbes (call usb c operation)
    unfolding call
    call-OnlyProbes c operation h = record {
      keeps = λ w k. All-append IsProbeCall w.trace (c ∷ []) k (h, tt);
    }

  pub print-OnlyProbes : (line : Line) → Keeps OnlyProbes (print usb line)
  unfolding print
  print-OnlyProbes line = record { keeps = λ w k. k }

  pub sleep-OnlyProbes : (interval : ℕ) → Keeps OnlyProbes (sleep usb interval)
  unfolding sleep
  sleep-OnlyProbes interval = record { keeps = λ w k. k }

  pub poll-OnlyProbes : Keeps OnlyProbes (poll usb)
  unfolding poll
  poll-OnlyProbes = call-OnlyProbes _ _ tt
