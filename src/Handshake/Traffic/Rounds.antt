-- ===== src/Handshake/Traffic/Rounds.antt =====
-- The handshake and the wait keep to the calls that are allowed.
use oukitel_rt7_linux.Prelude.{
  ℕ, zero, suc, ◌+◌, ◌≡◌, ◌⊎◌, List, some, none, ap, inl, inr, refl, Bool, true, false, [], ◌∷◌,
  Result, ok, err, ltb, All, All-append, contains, nat_eq, Bool-cases, Option-cases, if◌then◌else◌,
}
use oukitel_rt7_linux.Prelude.Exec.{Keeps, Keeps-pure, Keeps-raise, Keeps-bind, Keeps-attempt, pure}
use oukitel_rt7_linux.Python.Bytes.{Bytes}
use oukitel_rt7_linux.Handshake.Usb.{Usb, Device, Exception, usb_error, find_devices}
use oukitel_rt7_linux.Handshake.Endpoints.{EndpointPair}
use oukitel_rt7_linux.Handshake.Wait.{
  vid_mediatek, first_match, matching, wait_loop, wait_for_transport,
}
use oukitel_rt7_linux.Handshake.Wait.Found.{
  after_poll, after_sleep, wait_loop_late, wait_loop_raised, wait_loop_found, wait_loop_again,
}
use oukitel_rt7_linux.Handshake.Sync.{
  start_command, exchange, report, sync_byte, sync_loop, run_handshake,
}
use oukitel_rt7_linux.Handshake.Traffic.{IsProbeCall, OnlyProbes, call-OnlyProbes, print-OnlyProbes}

module _ (usb : Usb) where
  ruleset rules = (Keeps-pure, Keeps-raise, Keeps-bind, Keeps-attempt, print-OnlyProbes)

  module _ (pair : EndpointPair) where
    pub exchange-OnlyProbes :
        (value : ℕ)
        → contains start_command value ≡ true
        → Keeps (OnlyProbes usb) (exchange usb pair value)
    unfolding exchange
    exchange-OnlyProbes value known =
        Keeps-bind (OnlyProbes usb) _ _ (call-OnlyProbes usb _ _ (value, refl, known)) λ n.
          Keeps-bind (OnlyProbes usb) _ _ (call-OnlyProbes usb _ _ tt)
            (λ echo. Keeps-pure (OnlyProbes usb) (n, echo))

    pub report-OnlyProbes :
        (index value : ℕ) (r : Result Exception (ℕ × Bytes))
        → Keeps (OnlyProbes usb) (report usb pair index value r)
    report-OnlyProbes index value (ok (n, echo)) = search rules
    report-OnlyProbes index value (err (usb_error message)) = search rules
    report-OnlyProbes index value (err _) = search rules

    pub sync_byte-OnlyProbes :
        (index value : ℕ)
        → contains start_command value ≡ true
        → Keeps (OnlyProbes usb) (sync_byte usb pair index value)
    unfolding sync_byte
    sync_byte-OnlyProbes index value known =
        Keeps-bind (OnlyProbes usb) _ _
          (Keeps-attempt (OnlyProbes usb) _ (exchange-OnlyProbes value known))
          (report-OnlyProbes index value)

    pub sync_loop-OnlyProbes :
        (index : ℕ) (bytes : Bytes)
        → All (λ value. contains start_command value ≡ true) bytes
        → Keeps (OnlyProbes usb) (sync_loop usb pair index bytes)
    unfolding sync_loop
    sync_loop-OnlyProbes index [] h = search rules
    sync_loop-OnlyProbes index (value ∷ rest) h =
        Keeps-bind (OnlyProbes usb) _ _ (sync_byte-OnlyProbes index value h.0)
          (go_on (sync_loop-OnlyProbes (index + 1) rest h.1))
      where
        go_on :
            Keeps (OnlyProbes usb) (sync_loop usb pair (index + 1) rest)
            → (good : Bool)
            → Keeps
                (OnlyProbes usb)
                (if good then sync_loop usb pair (index + 1) rest else pure false)
        go_on more true = more
        go_on more false = Keeps-pure (OnlyProbes usb) false

    pub run_handshake-OnlyProbes : Keeps (OnlyProbes usb) (run_handshake usb pair)
    unfolding run_handshake contains
    run_handshake-OnlyProbes =
        sync_loop-OnlyProbes 1 start_command (refl, (refl, (refl, (refl, tt))))

  -- An enumeration raised, found a device or found none.
  matching-cases :
      (r : Result Exception (List Device))
      → ((e : Exception) × (matching r ≡ err e))
        ⊎ (((d : Device) × (matching r ≡ ok (some d))) ⊎ (matching r ≡ ok none))
  matching-cases (err e) = inl (e, refl)
  matching-cases (ok devices) = elim (Option-cases (first_match devices)) [
    | inl nothing ↦ inr (inr (ap ok nothing))
    | inr (d, e) ↦ inr (inl (d, ap ok e))
  ]

  pub wait_loop-OnlyProbes :
      (fuel deadline timeout interval : ℕ)
      → Keeps (OnlyProbes usb) (wait_loop usb fuel deadline timeout interval)
  wait_loop-OnlyProbes zero deadline timeout interval =
      unfold wait_loop in record { keeps = λ w h. h }
  wait_loop-OnlyProbes (suc fuel) deadline timeout interval = record {
    keeps = λ w h.
        let noted = All-append IsProbeCall w.trace (find_devices vid_mediatek ∷ []) h (tt, tt) in
        let polled = usb.find vid_mediatek w.bus in
        elim (Bool-cases (ltb (usb.monotonic w.bus) deadline)) [
          | inr late ↦ rw (wait_loop_late usb deadline timeout interval fuel w late) h
          | inl early ↦ elim (matching-cases polled.0) [
            | inl (e, raised) ↦
                rw (wait_loop_raised usb deadline timeout interval fuel w e early raised) noted
            | inr found ↦ elim found [
              | inl (d, e) ↦
                  rw (wait_loop_found usb deadline timeout interval fuel w d early e) noted
              | inr e ↦ rw (wait_loop_again usb deadline timeout interval fuel w early e) (
                  (wait_loop-OnlyProbes fuel deadline timeout interval).keeps
                    (after_sleep usb interval (after_poll usb w)) noted)
            ]
          ]
        ];
  }

  pub wait_for_transport-OnlyProbes :
      (timeout interval : ℕ) → Keeps (OnlyProbes usb) (wait_for_transport usb timeout interval)
  unfolding wait_for_transport
  wait_for_transport-OnlyProbes timeout interval = record {
    keeps = λ w h.
        (wait_loop-OnlyProbes (suc timeout) (usb.monotonic w.bus + timeout) timeout interval).keeps
          w h;
  }
