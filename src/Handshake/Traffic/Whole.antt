-- ===== src/Handshake/Traffic/Whole.antt =====
-- What the probe sends on the bus, from its start to its exit.
use oukitel_rt7_linux.Prelude.{
  ℕ, zero, suc, ◌≡◌, inl, inr, Bool, true, false, [], Option, none, some, Result, ok, err, All,
  nat_eq, Bool-cases,
}
use oukitel_rt7_linux.Prelude.Exec.{Keeps, Keeps-pure, Keeps-raise, Keeps-bind, Keeps-attempt, lift}
use oukitel_rt7_linux.Handshake.Usb.{Usb, World, Exception, Device}
use oukitel_rt7_linux.Handshake.Probe.{
  Platform, load_backend, enable_usbdk, exit_code, probe_device, probe_found, try_probe, exit_of,
  main,
}
use oukitel_rt7_linux.Handshake.Traffic.{IsProbeCall, OnlyProbes, print-OnlyProbes}
use oukitel_rt7_linux.Handshake.Traffic.Setup.{
  prepare_configuration-OnlyProbes, print_summary-OnlyProbes, claim_interface-OnlyProbes,
  configure_cdc-OnlyProbes,
}
use oukitel_rt7_linux.Handshake.Traffic.Rounds.{
  run_handshake-OnlyProbes, wait_for_transport-OnlyProbes,
}

module _ (usb : Usb) where
  ruleset rules = (Keeps-pure, Keeps-raise, Keeps-bind, Keeps-attempt, print-OnlyProbes)

  enable_usbdk-OnlyProbes : (o : Option ℕ) → Keeps (OnlyProbes usb) (enable_usbdk usb o)
  enable_usbdk-OnlyProbes none = search rules
  enable_usbdk-OnlyProbes (some zero) = search rules
  enable_usbdk-OnlyProbes (some (suc n)) = search rules

  load_backend-OnlyProbes :
      (platform : Platform) → Keeps (OnlyProbes usb) (load_backend usb platform)
  unfolding load_backend
  load_backend-OnlyProbes platform = elim (Bool-cases platform.has_backend) [
    | inr e ↦ rw e (search rules)
    | inl e ↦ elim (Bool-cases platform.win32) [
      | inr e' ↦ rw (e, e') (search rules)
      | inl e' ↦ rw (e, e') (enable_usbdk-OnlyProbes platform.set_option)
    ]
  ]

  exit_code-OnlyProbes : (good : Bool) → Keeps (OnlyProbes usb) (exit_code usb good)
  exit_code-OnlyProbes true = search rules
  exit_code-OnlyProbes false = search rules

  lift-OnlyProbes : {A : Type 0} (r : Result Exception A) → Keeps (OnlyProbes usb) (lift r)
  lift-OnlyProbes r = record { keeps = λ w h. h }

  probe_device-OnlyProbes : (device : Device) → Keeps (OnlyProbes usb) (probe_device usb device)
  unfolding probe_device
  probe_device-OnlyProbes device =
      search
        (
          Keeps-bind, lift-OnlyProbes, print-OnlyProbes, prepare_configuration-OnlyProbes,
          print_summary-OnlyProbes, claim_interface-OnlyProbes, configure_cdc-OnlyProbes,
          run_handshake-OnlyProbes, exit_code-OnlyProbes,
        )
        depth 20

  try_probe-OnlyProbes :
      (platform : Platform) (timeout interval : ℕ)
      → Keeps (OnlyProbes usb) (try_probe usb platform timeout interval)
  unfolding try_probe
  try_probe-OnlyProbes platform timeout interval =
      Keeps-bind (OnlyProbes usb) _ _ (load_backend-OnlyProbes platform) λ _.
        Keeps-bind (OnlyProbes usb) _ _ (wait_for_transport-OnlyProbes usb timeout interval) found
    where
      found : (o : Option Device) → Keeps (OnlyProbes usb) (probe_found usb o)
      found none = search rules
      found (some device) = probe_device-OnlyProbes device

  exit_of-OnlyProbes : (r : Result Exception (Option ℕ)) → Keeps (OnlyProbes usb) (exit_of usb r)
  exit_of-OnlyProbes (ok code) = search rules
  exit_of-OnlyProbes (err _) = search rules

  -- Whatever the bus, the platform and the times, a probe that begins with an empty trace makes no
  -- bulk write but of single start bytes, and no control transfer but the two that set up the line.
  pub main-OnlyProbes :
      (platform : Platform) (timeout interval : ℕ) (w : World usb.Bus)
      → w.trace ≡ []
      → All IsProbeCall (main usb platform timeout interval w).1.trace
  unfolding main
  main-OnlyProbes platform timeout interval w fresh =
      let keeps : Keeps (OnlyProbes usb) (main usb platform timeout interval) =
        search (rules, try_probe-OnlyProbes, exit_of-OnlyProbes) in
      keeps.keeps w (rw fresh tt)
