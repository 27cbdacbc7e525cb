-- ===== src/Handshake/Usb.antt =====
-- What scripts/probe-mtk-handshake.py uses of pyusb and of the clock: a record of operations over what
-- is outside, the bus and the time, and the world that the script changes. Any operation may take
-- time. Each call to pyusb is noted in the world's trace.
use oukitel_rt7_linux.Prelude.{
  ℕ, ◌+◌, ◌≤◌, ◌≡◌, Bool, true, List, [], ◌∷◌, ◌++◌, Option, none, some, Result, ok, err, All,
}
use oukitel_rt7_linux.Prelude.Exec.{Exec}
use oukitel_rt7_linux.Python.Text.{Text}
use oukitel_rt7_linux.Python.Bytes.{Bytes}

pub record Endpoint : Type 0 where
  pub address : ℕ
  pub attributes : ℕ

pub record Interface : Type 0 where
  pub number : ℕ
  pub class_code : ℕ
  pub subclass : ℕ
  pub protocol : ℕ
  pub endpoints : List Endpoint

abbrev pub Configuration : Type 0
Configuration = List Interface

pub record Device : Type 0 where
  pub id_vendor : ℕ
  pub id_product : ℕ
  pub device_class : ℕ
  pub bus : ℕ
  pub address : ℕ

-- The exceptions that the script catches or raises. `NotImplementedError` is a `RuntimeError`.
pub data Exception : Type 0 where
  usb_error runtime_error : Text → Exception
  timeout_error : ℕ → Exception
  not_implemented : Exception

-- One call to pyusb.
pub data Call : Type 0 where
  find_devices : ℕ → Call
  get_configuration set_configuration : Call
  driver_active detach_driver claim : ℕ → Call
  control : ℕ → ℕ → ℕ → ℕ → Bytes → Call
  bulk_write : Endpoint → Bytes → Call
  bulk_read : Endpoint → ℕ → Call

-- What is printed, as the values in the line.
pub data Line : Type 0 where
  banner no_backend_option usbdk_backend : Line
  detected : Device → Line
  summary : Interface → Line
  using_interface : ℕ → Line
  control_sent : Text → ℕ → Line
  control_ignored : Text → Exception → Line
  sync_error : ℕ → ℕ → Exception → Line
  sync_reply : ℕ → ℕ → ℕ → Bytes → ℕ → Line
  handshake_failed handshake_succeeded : Line
  probe_failed : Exception → Line

pub record Usb : Type 1 where
  pub Bus : Type 0
  pub find : ℕ → Bus → Result Exception (List Device) × Bus
  pub get_active_configuration : Device → Bus → Result Exception Configuration × Bus
  pub set_configuration : Device → Bus → Result Exception (Unit {0}) × Bus
  pub is_kernel_driver_active : Device → ℕ → Bus → Result Exception Bool × Bus
  pub detach_kernel_driver : Device → ℕ → Bus → Result Exception (Unit {0}) × Bus
  pub claim_interface : Device → ℕ → Bus → Result Exception (Unit {0}) × Bus
  pub ctrl_transfer : Device → ℕ → ℕ → ℕ → ℕ → Bytes → Bus → Result Exception ℕ × Bus
  pub write : Endpoint → Bytes → Bus → Result Exception ℕ × Bus
  pub read : Endpoint → ℕ → Bus → Result Exception Bytes × Bus
  pub find_descriptor : List Endpoint → (Endpoint → Bool) → Option Endpoint
  pub endpoint_direction : ℕ → ℕ
  pub endpoint_in : ℕ
  pub endpoint_out : ℕ
  -- `time.monotonic()`, in ticks, and `time.sleep(interval)`.
  pub monotonic : Bus → ℕ
  pub sleep : ℕ → Bus → Bus

-- The member of a list, with its place kept.
pub data Member {A : Type 0} (a : A) : List A → Type 0 where
  first : {xs : List A} → Member a (a ∷ xs)
  later : {x : A} {xs : List A} → Member a xs → Member a (x ∷ xs)

-- Documented of pyusb: `find_descriptor` gives a descriptor that matches, or `None` if none does.
pub record IsLawful (usb : Usb) : Type 0 where
  pub find_some :
      (es : List Endpoint) (test : Endpoint → Bool) (e : Endpoint)
      → usb.find_descriptor es test ≡ some e
      → (test e ≡ true) × Member e es
  pub find_none :
      (es : List Endpoint) (test : Endpoint → Bool)
      → usb.find_descriptor es test ≡ none
      → All (λ e. ¬ (test e ≡ true)) es

-- The devices of an enumeration that did not raise.
abbrev pub found_devices : Result Exception (List Device) → List Device
found_devices (ok devices) = devices
found_devices (err e) = []

-- Documented of `time` and of pyusb: the clock cannot go backwards, a sleep takes as long as was
-- asked at least, and `find` with a vendor gives devices of that vendor.
pub record IsTimed (usb : Usb) : Type 0 where
  pub find_vendor :
      (vendor : ℕ) (bus : usb.Bus)
      → All (λ d. d.id_vendor ≡ vendor) (found_devices (usb.find vendor bus).0)
  pub find_later :
      (vendor : ℕ) (bus : usb.Bus) → usb.monotonic bus ≤ usb.monotonic (usb.find vendor bus).1
  pub sleep_later :
      (interval : ℕ) (bus : usb.Bus)
      → usb.monotonic bus + interval ≤ usb.monotonic (usb.sleep interval bus)

pub record World (Bus : Type 0) : Type 0 where
  pub bus : Bus
  pub trace : List Call
  pub printed : List Line

module _ (usb : Usb) where
  abbrev pub Probe : Type 0 → Type 0
  Probe A = Exec Exception (World usb.Bus) A

  module _ {A : Type 0} where
    -- A call is noted, and may change the bus.
    unfoldable pub call : Call → (usb.Bus → Result Exception A × usb.Bus) → Probe A
    call c operation w =
        let (r, bus') = operation w.bus in (r, record w { bus = bus'; trace = w.trace ++ c ∷ [] })

  unfoldable pub print : Line → Probe (Unit {0})
  print line w = (ok tt, record w { printed = w.printed ++ line ∷ [] })
