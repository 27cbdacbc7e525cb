-- ===== src/Handshake/Wait/Found.antt =====
-- How the wait ends: with a device of a known boot transport, at the deadline, or with what pyusb
-- raised.
use oukitel_rt7_linux.Prelude.{
  ℕ, zero, suc, ◌+◌, ◌-◌, ◌≤◌, ◌<◌, ◌≡◌, refl, ap, ◌∙◌, true, false, List, [], ◌∷◌, ◌++◌, Option,
  none, some, Result, ok, err, ltb, contains, nat_eq, arith, All, ◌⊎◌, Option-cases, Bool-cases,
  inl, inr,
}
use oukitel_rt7_linux.Prelude.Exec.{◌>>=◌}
use oukitel_rt7_linux.Handshake.Usb.{
  Usb, Device, World, IsTimed, found_devices, call, find_devices, timeout_error, Exception,
}
use oukitel_rt7_linux.Handshake.Wait.{
  vid_mediatek, transport_pids, first_match, matching, wait_loop, wait_for_transport,
}

-- A device of the vendor, of one of the products of a boot transport.
pub record IsTransport (d : Device) : Type 0 where
  pub vendor : d.id_vendor ≡ vid_mediatek
  pub product : contains transport_pids d.id_product ≡ true

first_match-All :
    (P : Device → Type 0) (ds : List Device) (d : Device)
    → All P ds
    → first_match ds ≡ some d
    → P d × (contains transport_pids d.id_product ≡ true)
unfolding first_match
first_match-All P [] d all h = cc
first_match-All P (x ∷ ds) d all h = elim (Bool-cases (contains transport_pids x.id_product)) [
  | inl e ↦
      let same : x ≡ d = ground arith in
      let both : P x × (contains transport_pids x.id_product ≡ true) = (all.0, e) in rw same at both
  | inr e ↦ first_match-All P ds d all.1 (rw e at h)
]

module _ (usb : Usb) where
  -- An enumeration that began at a time before the deadline, and left the bus as it is.
  pub record Enumerates (deadline : ℕ) (r : Result Exception (List Device)) (after : usb.Bus)
      : Type 0 where
    pub bus : usb.Bus
    pub in_time : usb.monotonic bus < deadline
    pub gave : (usb.find vid_mediatek bus).0 ≡ r
    pub left : (usb.find vid_mediatek bus).1 ≡ after

  -- The device is the first transport of an enumeration that began before the deadline.
  pub record Finds (deadline : ℕ) (d : Device) (after : usb.Bus) : Type 0 where
    pub devices : List Device
    pub enumerated : Enumerates deadline (ok devices) after
    pub first : first_match devices ≡ some d
    pub transport : IsTransport d

  -- What a wait may end with.
  abbrev pub Ended : ℕ → ℕ → Result Exception (Option Device) × World usb.Bus → Type 0
  Ended deadline timeout (ok none, w) = ⊥
  Ended deadline timeout (ok (some d), w) = Finds deadline d w.bus
  Ended deadline timeout (err e, w) =
      ((e ≡ timeout_error timeout) × (deadline ≤ usb.monotonic w.bus))
      ⊎ Enumerates deadline (err e) w.bus

  abbrev pub after_poll : World usb.Bus → World usb.Bus
  after_poll w = record w {
    bus = (usb.find vid_mediatek w.bus).1;
    trace = w.trace ++ find_devices vid_mediatek ∷ [];
  }

  abbrev pub after_sleep : ℕ → World usb.Bus → World usb.Bus
  after_sleep interval w = record w { bus = usb.sleep interval w.bus }

  module _ (deadline timeout interval fuel : ℕ) (w : World usb.Bus) where
    pub wait_loop_late :
        ltb (usb.monotonic w.bus) deadline ≡ false
        → wait_loop usb (suc fuel) deadline timeout interval w ≡ (err (timeout_error timeout), w)
    unfolding wait_loop
    wait_loop_late late = ground arith

    pub wait_loop_raised :
        (e : Exception)
        → ltb (usb.monotonic w.bus) deadline ≡ true
        → matching (usb.find vid_mediatek w.bus).0 ≡ err e
        → wait_loop usb (suc fuel) deadline timeout interval w ≡ (err e, after_poll w)
    unfolding wait_loop ◌>>=◌ call
    wait_loop_raised e early raised = ground arith

    pub wait_loop_found :
        (d : Device)
        → ltb (usb.monotonic w.bus) deadline ≡ true
        → matching (usb.find vid_mediatek w.bus).0 ≡ ok (some d)
        → wait_loop usb (suc fuel) deadline timeout interval w ≡ (ok (some d), after_poll w)
    unfolding wait_loop ◌>>=◌ call
    wait_loop_found d early found = ground arith

    pub wait_loop_again :
        ltb (usb.monotonic w.bus) deadline ≡ true
        → matching (usb.find vid_mediatek w.bus).0 ≡ ok none
        → wait_loop usb (suc fuel) deadline timeout interval w
          ≡ wait_loop usb fuel deadline timeout interval (after_sleep interval (after_poll w))
    unfolding wait_loop ◌>>=◌ call
    wait_loop_again early found = ground arith

  -- What an enumeration that was begun in time gives is found in time.
  found-Finds :
      IsTimed usb
      → (deadline : ℕ) (bus : usb.Bus) (devices : List Device) (d : Device)
      → usb.monotonic bus < deadline
      → (usb.find vid_mediatek bus).0 ≡ ok devices
      → first_match devices ≡ some d
      → Finds deadline d (usb.find vid_mediatek bus).1
  found-Finds timed deadline bus devices d early gave first =
      let vendors : All (λ (d : Device). d.id_vendor ≡ vid_mediatek) (found_devices (ok devices)) =
        rw gave at (timed.find_vendor vid_mediatek bus) in
      let (vendor, product) =
        first_match-All (λ d. d.id_vendor ≡ vid_mediatek) devices d vendors first in
      record {
        devices = devices;
        enumerated = record { bus = bus; in_time = early; gave = gave; left = refl };
        first = first;
        transport = record { vendor = vendor; product = product };
      }

  Result-cases :
      (r : Result Exception (List Device))
      → ((devices : List Device) × (r ≡ ok devices)) ⊎ ((e : Exception) × (r ≡ err e))
  Result-cases (ok devices) = inl (devices, refl)
  Result-cases (err e) = inr (e, refl)

  module _ (timed : IsTimed usb) (deadline timeout interval : ℕ) (positive : 0 < interval) where
    -- The fuel is more than the time that is left, and each round takes some.
    left_less :
        (fuel : ℕ) (w : World usb.Bus)
        → usb.monotonic w.bus < deadline
        → deadline - usb.monotonic w.bus < suc fuel
        → deadline - usb.monotonic (after_sleep interval (after_poll w)).bus < fuel
    left_less fuel w early enough =
        let later = timed.find_later vid_mediatek w.bus in
        let slept = timed.sleep_later interval (after_poll w).bus in omega arith

    wait_loop-Ended :
        (fuel : ℕ) (w : World usb.Bus)
        → deadline - usb.monotonic w.bus < fuel
        → Ended deadline timeout (wait_loop usb fuel deadline timeout interval w)
    wait_loop-Ended zero w enough = absurd (omega arith)
    wait_loop-Ended (suc fuel) w enough = elim (Bool-cases (ltb (usb.monotonic w.bus) deadline)) [
      | inr late ↦
          rw (wait_loop_late deadline timeout interval fuel w late) (inl (refl, ground arith))
      | inl early ↦
          let in_time : usb.monotonic w.bus < deadline = ground arith in
          elim (Result-cases (usb.find vid_mediatek w.bus).0) [
            | inr (e, raised) ↦
                rw (wait_loop_raised deadline timeout interval fuel w e early (ap matching raised))
                  (inr (record { bus = w.bus; in_time = in_time; gave = raised; left = refl }))
            | inl (devices, gave) ↦ elim (Option-cases (first_match devices)) [
              | inr (d, first) ↦
                  rw
                    (wait_loop_found deadline timeout interval fuel w d early
                      (ap matching gave ∙ ap ok first))
                    (found-Finds timed deadline w.bus devices d in_time gave first)
              | inl nothing ↦
                  rw
                    (wait_loop_again deadline timeout interval fuel w early
                      (ap matching gave ∙ ap ok nothing))
                    (wait_loop-Ended fuel (after_sleep interval (after_poll w))
                      (left_less fuel w in_time enough))
            ]
          ]
    ]

  -- If the clock does not go backwards, sleeps take as long as was asked at least, and the interval
  -- is positive, the wait never runs out of fuel: it gives the first device of a boot transport in
  -- its last enumeration, which began before the deadline, or it times out once the deadline has
  -- come, or it raises what such an enumeration raised.
  pub wait_for_transport-Ended :
      IsTimed usb
      → (timeout interval : ℕ) → 0 < interval
      → (w : World usb.Bus)
      → Ended (usb.monotonic w.bus + timeout) timeout (wait_for_transport usb timeout interval w)
  unfolding wait_for_transport
  wait_for_transport-Ended timed timeout interval positive w =
      wait_loop-Ended timed (usb.monotonic w.bus + timeout) timeout interval positive (suc timeout)
        w (omega arith)
