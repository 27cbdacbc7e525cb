-- ===== src/Handshake/Traffic/Setup.antt =====
-- The set-up of the device keeps to the calls that are allowed.
use oukitel_rt7_linux.Prelude.{
  ℕ, inl, inr, refl, Bool, true, false, [], ◌∷◌, Result, ok, err, nat_eq, Bool-cases,
}
use oukitel_rt7_linux.Prelude.Exec.{Keeps, Keeps-pure, Keeps-raise, Keeps-bind, Keeps-attempt}
use oukitel_rt7_linux.Python.Text.{Text, text, has_infix}
use oukitel_rt7_linux.Python.Bytes.{Bytes}
use oukitel_rt7_linux.Handshake.Usb.{
  Usb, Exception, Device, Configuration, usb_error, not_implemented,
}
use oukitel_rt7_linux.Handshake.Probe.{
  line_coding, get_active, or_configure, prepare_configuration, print_summary, detach_if,
  release_driver, ignore_usb, claim_interface, print_control, send_control, configure_cdc,
}
use oukitel_rt7_linux.Handshake.Traffic.{IsCdc, OnlyProbes, call-OnlyProbes, print-OnlyProbes}

module _ (usb : Usb) where
  ruleset rules = (Keeps-pure, Keeps-raise, Keeps-bind, Keeps-attempt, print-OnlyProbes)

  pub get_active-OnlyProbes : (device : Device) → Keeps (OnlyProbes usb) (get_active usb device)
  unfolding get_active
  get_active-OnlyProbes device = call-OnlyProbes usb _ _ tt

  pub or_configure-OnlyProbes :
      (device : Device) (r : Result Exception Configuration)
      → Keeps (OnlyProbes usb) (or_configure usb device r)
  or_configure-OnlyProbes device (ok c) = search rules
  or_configure-OnlyProbes device (err (usb_error message)) =
      elim (Bool-cases (has_infix (text "Configuration not set") message)) [
        | inl e ↦ rw e (
            Keeps-bind (OnlyProbes usb) _ _ (call-OnlyProbes usb _ _ tt)
              (λ _. get_active-OnlyProbes device))
        | inr e ↦ rw e (search rules)
      ]
  or_configure-OnlyProbes device (err _) = search rules

  pub prepare_configuration-OnlyProbes :
      (device : Device) → Keeps (OnlyProbes usb) (prepare_configuration usb device)
  unfolding prepare_configuration
  prepare_configuration-OnlyProbes device =
      search (rules, get_active-OnlyProbes, or_configure-OnlyProbes)

  pub print_summary-OnlyProbes :
      (configuration : Configuration) → Keeps (OnlyProbes usb) (print_summary usb configuration)
  unfolding print_summary
  print_summary-OnlyProbes [] = search rules
  print_summary-OnlyProbes (interface ∷ rest) =
      let more = print_summary-OnlyProbes rest in search rules

  pub detach_if-OnlyProbes :
      (device : Device) (number : ℕ) (active : Bool)
      → Keeps (OnlyProbes usb) (detach_if usb device number active)
  detach_if-OnlyProbes device number true = call-OnlyProbes usb _ _ tt
  detach_if-OnlyProbes device number false = search rules

  pub release_driver-OnlyProbes :
      (device : Device) (number : ℕ) → Keeps (OnlyProbes usb) (release_driver usb device number)
  unfolding release_driver
  release_driver-OnlyProbes device number =
      Keeps-bind (OnlyProbes usb) _ _ (call-OnlyProbes usb _ _ tt)
        (detach_if-OnlyProbes device number)

  pub ignore_usb-OnlyProbes :
      (r : Result Exception (Unit {0})) → Keeps (OnlyProbes usb) (ignore_usb usb r)
  ignore_usb-OnlyProbes (ok u) = search rules
  ignore_usb-OnlyProbes (err (usb_error message)) = search rules
  ignore_usb-OnlyProbes (err not_implemented) = search rules
  ignore_usb-OnlyProbes (err _) = search rules

  pub claim_interface-OnlyProbes :
      (device : Device) (number : ℕ) → Keeps (OnlyProbes usb) (claim_interface usb device number)
  unfolding claim_interface
  claim_interface-OnlyProbes device number =
      Keeps-bind (OnlyProbes usb) _ _
        (Keeps-attempt (OnlyProbes usb) _ (release_driver-OnlyProbes device number))
        λ r.
          Keeps-bind (OnlyProbes usb) _ _ (ignore_usb-OnlyProbes r)
            (λ _. call-OnlyProbes usb _ _ tt)

  pub print_control-OnlyProbes :
      (label : Text) (r : Result Exception ℕ) → Keeps (OnlyProbes usb) (print_control usb label r)
  print_control-OnlyProbes label (ok sent) = search rules
  print_control-OnlyProbes label (err (usb_error message)) = search rules
  print_control-OnlyProbes label (err _) = search rules

  pub send_control-OnlyProbes :
      (device : Device) (label : Text) (request value : ℕ) (payload : Bytes)
      → IsCdc 0x21 request value 0 payload
      → Keeps (OnlyProbes usb) (send_control usb device label request value payload)
  unfolding send_control
  send_control-OnlyProbes device label request value payload h =
      Keeps-bind (OnlyProbes usb) _ _ (Keeps-attempt (OnlyProbes usb) _ (call-OnlyProbes usb _ _ h))
        (print_control-OnlyProbes label)

  pub configure_cdc-OnlyProbes :
      (device : Device) → Keeps (OnlyProbes usb) (configure_cdc usb device)
  unfolding configure_cdc
  configure_cdc-OnlyProbes device =
      Keeps-bind (OnlyProbes usb) _ _
        (send_control-OnlyProbes device (text "SET_LINE_CODING") 0x20 0 line_coding
          (refl, refl, inl (refl, refl, refl)))
        λ _.
          send_control-OnlyProbes device (text "SET_CONTROL_LINE_STATE") 0x01 2 []
            (refl, refl, inr (refl, refl, refl))
