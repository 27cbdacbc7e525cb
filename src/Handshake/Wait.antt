-- ===== src/Handshake/Wait.antt =====
-- `matching_devices` and `wait_for_transport` of scripts/probe-mtk-handshake.py.
pub mod Found
use oukitel_rt7_linux.Prelude.{
  ℕ, zero, suc, ◌+◌, ◌-◌, ◌≡◌, Bool, true, false, List, [], ◌∷◌, ◌++◌, Option, none, some, ltb,
  contains, nat_eq, if◌then◌else◌,
}
use oukitel_rt7_linux.Prelude.Exec.{◌>>=◌, ◌>>◌, pure, raise, gets}
use oukitel_rt7_linux.Handshake.Usb.{
  Usb, Device, Exception, World, Probe, call, find_devices, timeout_error,
}
use oukitel_rt7_linux.Prelude.{Result, ok, err}

abbrev pub vid_mediatek : ℕ
vid_mediatek = 0x0E8D

abbrev pub transport_pids : List ℕ
transport_pids = 0x0003 ∷ 0x2000 ∷ 0x2001 ∷ 0x20FF ∷ 0x3000 ∷ 0x6000 ∷ []

-- The first of `device for device in devices if device.idProduct in TRANSPORT_PIDS`.
unfoldable pub first_match : List Device → Option Device
first_match [] = none
first_match (d ∷ ds) = if contains transport_pids d.id_product then some d else first_match ds

-- What an enumeration gives, or the exception that it raised.
abbrev pub matching : Result Exception (List Device) → Result Exception (Option Device)
matching (ok devices) = ok (first_match devices)
matching (err e) = err e

module _ (usb : Usb) where
  -- One enumeration of the bus.
  unfoldable pub poll : Probe usb (Option Device)
  unfolding first_match call
  poll =
      call usb (find_devices vid_mediatek)
        λ bus. let (devices, bus') = usb.find vid_mediatek bus in (matching devices, bus')

  unfoldable pub sleep : ℕ → Probe usb (Unit {0})
  sleep interval w = (ok tt, record w { bus = usb.sleep interval w.bus })

  -- The loop, with fuel; `none` means that the fuel ran out.
  unfoldable pub wait_loop : ℕ → ℕ → ℕ → ℕ → Probe usb (Option Device)
  unfolding poll sleep
  wait_loop zero deadline timeout interval w = (ok none, w)
  wait_loop (suc fuel) deadline timeout interval w = elim (ltb (usb.monotonic w.bus) deadline) [
    | false ↦ raise (timeout_error timeout) w
    | true ↦
        (poll >>= λ found. elim found [
          | some device ↦ pure (some device)
          | none ↦ (sleep interval >> wait_loop fuel deadline timeout interval)
        ])
          w
  ]

  -- Times are in ticks of the clock. A round of the loop takes one at least, if the interval does.
  unfoldable pub wait_for_transport : ℕ → ℕ → Probe usb (Option Device)
  unfolding wait_loop
  wait_for_transport timeout interval w =
      wait_loop (suc timeout) (usb.monotonic w.bus + timeout) timeout interval w
