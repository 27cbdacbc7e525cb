-- ===== src/Handshake/Sync/Echo.antt =====
-- What the handshake writes, and what a success has seen.
use oukitel_rt7_linux.Prelude.{
  ℕ, suc, ◌+◌, ◌≤◌, ◌≡◌, refl, sym, ap, ◌∙◌, Bool, true, false, List, [], ◌∷◌, ◌++◌, append_assoc,
  append-nil, Result, ok, err, length, take, nat_eq, nat_beq_iff, arith, inl, inr, ◌⊎◌,
}
use oukitel_rt7_linux.Prelude.Exec.{◌>>=◌}
use oukitel_rt7_linux.Python.Bytes.{Bytes}
use oukitel_rt7_linux.Handshake.Usb.{
  Usb, World, Call, Line, Exception, call, print, bulk_write, bulk_read, sync_reply, usb_error,
}
use oukitel_rt7_linux.Handshake.Endpoints.{EndpointPair}
use oukitel_rt7_linux.Handshake.Sync.{
  start_command, is_wrong_echo, complement, exchange, report, sync_byte, sync_loop, run_handshake,
}

abbrev written_by : Call → Bytes → Bytes
written_by (bulk_write _ bytes) rest = bytes ++ rest
written_by _ rest = rest

-- The bytes of the bulk writes among the calls.
unfoldable pub bytes_written : List Call → Bytes
bytes_written [] = []
bytes_written (c ∷ calls) = written_by c (bytes_written calls)

pub bytes_written-append :
    (a b : List Call) → bytes_written (a ++ b) ≡ bytes_written a ++ bytes_written b
unfolding bytes_written
bytes_written-append [] b = refl
bytes_written-append (bulk_write _ bytes ∷ a) b =
    ap (λ l. bytes ++ l) (bytes_written-append a b)
    ∙ sym (append_assoc bytes (bytes_written a) (bytes_written b))
bytes_written-append (_ ∷ a) b = bytes_written-append a b

wrong_echo : (echo : Bytes) (c : ℕ) → is_wrong_echo echo c ≡ false → echo ≡ c ∷ []
unfolding is_wrong_echo
wrong_echo [] c h = cc
wrong_echo (b ∷ []) c h = let same : b ≡ c = ground arith in ap (λ x. x ∷ []) same
wrong_echo (a ∷ b ∷ s) c h = cc

module _ (usb : Usb) (pair : EndpointPair) where
  -- Each round attempts one write, of its byte.
  written-sync_byte :
      (index value : ℕ) (w : World usb.Bus)
      → bytes_written (sync_byte usb pair index value w).1.trace
        ≡ bytes_written w.trace ++ value ∷ []
  unfolding sync_byte ◌>>=◌ call print
  written-sync_byte index value w =
      let one = bytes_written-append w.trace (bulk_write pair.endpoint_out (value ∷ []) ∷ []) in
      let two =
        bytes_written-append (w.trace ++ bulk_write pair.endpoint_out (value ∷ []) ∷ [])
          (bulk_read pair.endpoint_in 1 ∷ []) in
      unfold bytes_written in
      ground (arith, one, two, append-nil (bytes_written w.trace ++ value ∷ []))

  abbrev pub good_reply : ℕ → ℕ → Line
  good_reply index value = sync_reply index value 1 (complement value ∷ []) (complement value)

  printed-report :
      (index value : ℕ) (r : Result Exception (ℕ × Bytes)) (w : World usb.Bus)
      → (report usb pair index value r w).0 ≡ ok true
      → (report usb pair index value r w).1.printed ≡ w.printed ++ good_reply index value ∷ []
  unfolding ◌>>=◌ print
  printed-report index value (ok (written, echo)) w h =
      let one : written ≡ 1 = ground arith in
      let right : is_wrong_echo echo (complement value) ≡ false = ground arith in
      rw (one, wrong_echo echo (complement value) right) refl
  printed-report index value (err (usb_error message)) w h = cc
  printed-report index value (err _) w h = cc

  printed-exchange :
      (value : ℕ) (w : World usb.Bus) → (exchange usb pair value w).1.printed ≡ w.printed
  unfolding exchange ◌>>=◌ call
  printed-exchange value w = ground arith

  printed-sync_byte :
      (index value : ℕ) (w : World usb.Bus)
      → (sync_byte usb pair index value w).0 ≡ ok true
      → (sync_byte usb pair index value w).1.printed ≡ w.printed ++ good_reply index value ∷ []
  printed-sync_byte index value w h =
      unfold sync_byte ◌>>=◌ in
      printed-report index value (exchange usb pair value w).0 (exchange usb pair value w).1 h
      ∙ ap (λ l. l ++ good_reply index value ∷ []) (printed-exchange value w)

  abbrev pub good_replies : ℕ → Bytes → List Line
  good_replies index [] = []
  good_replies index (value ∷ rest) = good_reply index value ∷ good_replies (index + 1) rest

  -- The rounds that were made, and whether all were.
  abbrev Wrote : Bytes → World usb.Bus → Result Exception Bool × World usb.Bus → Type 0
  Wrote bytes w (r, w') =
      (k : ℕ) × (k ≤ length bytes)
      × (bytes_written w'.trace ≡ bytes_written w.trace ++ take k bytes)
      × (r ≡ ok true → k ≡ length bytes)

  continued :
      (index : ℕ) (value : ℕ) (rest : Bytes) (w : World usb.Bus)
      → (sync_byte usb pair index value w).0 ≡ ok true
      → sync_loop usb pair index (value ∷ rest) w
        ≡ sync_loop usb pair (index + 1) rest (sync_byte usb pair index value w).1
  unfolding sync_loop ◌>>=◌
  continued index value rest w h = rw (h) refl

  stopped :
      (index : ℕ) (value : ℕ) (rest : Bytes) (w : World usb.Bus)
      → ¬ ((sync_byte usb pair index value w).0 ≡ ok true)
      → ((sync_loop usb pair index (value ∷ rest) w).1 ≡ (sync_byte usb pair index value w).1)
        × ¬ ((sync_loop usb pair index (value ∷ rest) w).0 ≡ ok true)
  unfolding sync_loop ◌>>=◌
  stopped index value rest w h = (ground arith, λ e. ground arith)

  outcome_cases :
      (index value : ℕ) (w : World usb.Bus)
      → ((sync_byte usb pair index value w).0 ≡ ok true)
        ⊎ (¬ ((sync_byte usb pair index value w).0 ≡ ok true))
  outcome_cases index value w = ok_cases (sync_byte usb pair index value w).0
    where
      ok_cases : (r : Result Exception Bool) → (r ≡ ok true) ⊎ (¬ (r ≡ ok true))
      ok_cases (ok true) = inl refl
      ok_cases (ok false) = inr (λ e. cc)
      ok_cases (err e) = inr (λ e. cc)

  sync_loop-Wrote :
      (index : ℕ) (bytes : Bytes) (w : World usb.Bus)
      → Wrote bytes w (sync_loop usb pair index bytes w)
  sync_loop-Wrote index [] w =
      unfold sync_loop in (0, omega arith, sym (append-nil (bytes_written w.trace)), λ e. refl)
  sync_loop-Wrote index (value ∷ rest) w = elim (outcome_cases index value w) [
    | inl good ↦
        let (k, le, e, all) =
          sync_loop-Wrote (index + 1) rest (sync_byte usb pair index value w).1 in
        rw (continued index value rest w good) (
          suc k,
          omega arith,
          e
              ∙ (ap (λ l. l ++ take k rest) (written-sync_byte index value w)
                  ∙ append_assoc (bytes_written w.trace) (value ∷ []) (take k rest)),
          λ s. ap suc (all s),
        )
    | inr bad ↦
        let (same, failed) = stopped index value rest w bad in
        (
          1,
          omega arith,
          ap (λ (v : World usb.Bus). bytes_written v.trace) same ∙ written-sync_byte index value w,
          λ s. absurd (failed s),
        )
  ]

  sync_loop-printed :
      (index : ℕ) (bytes : Bytes) (w : World usb.Bus)
      → (sync_loop usb pair index bytes w).0 ≡ ok true
      → (sync_loop usb pair index bytes w).1.printed ≡ w.printed ++ good_replies index bytes
  sync_loop-printed index [] w h = unfold sync_loop in sym (append-nil w.printed)
  sync_loop-printed index (value ∷ rest) w h = elim (outcome_cases index value w) [
    | inr bad ↦ absurd ((stopped index value rest w bad).1 h)
    | inl good ↦
        let step = continued index value rest w good in
        rw step (
          sync_loop-printed (index + 1) rest (sync_byte usb pair index value w).1 (rw step at h)
          ∙ (ap (λ l. l ++ good_replies (index + 1) rest) (printed-sync_byte index value w good)
              ∙ append_assoc w.printed (good_reply index value ∷ [])
                  (good_replies (index + 1) rest)))
  ]

  -- Whatever the device does, the handshake writes a prefix of the four start bytes, in order, after
  -- what was written before.
  pub bytes_written-run_handshake :
      (w : World usb.Bus)
      → (k : ℕ) × (k ≤ 4)
        × (bytes_written (run_handshake usb pair w).1.trace
            ≡ bytes_written w.trace ++ take k start_command)
  unfolding run_handshake
  bytes_written-run_handshake w =
      let (k, le, e, all) = sync_loop-Wrote 1 start_command w in (k, le, e)

  -- If the handshake succeeds, it has written all four start bytes, and for each it has reported
  -- one byte written and one byte read, its complement.
  pub run_handshake-answered :
      (w : World usb.Bus)
      → (run_handshake usb pair w).0 ≡ ok true
      → (bytes_written (run_handshake usb pair w).1.trace ≡ bytes_written w.trace ++ start_command)
        × ((run_handshake usb pair w).1.printed ≡ w.printed ++ good_replies 1 start_command)
  unfolding run_handshake
  run_handshake-answered w h =
      let (k, le, e, all) = sync_loop-Wrote 1 start_command w in
      let four = all h in (rw four at e, sync_loop-printed 1 start_command w h)

  -- A device that takes each byte and answers with its complement.
  pub record IsEchoing : Type 0 where
    pub takes :
        (value : ℕ) (bus : usb.Bus) → (usb.write pair.endpoint_out (value ∷ []) bus).0 ≡ ok 1
    pub answers :
        (value : ℕ) (bus : usb.Bus)
        → (usb.read pair.endpoint_in 1 (usb.write pair.endpoint_out (value ∷ []) bus).1).0
          ≡ ok (complement value ∷ [])

  echoed : (value : ℕ) → is_wrong_echo (complement value ∷ []) (complement value) ≡ false
  unfolding is_wrong_echo
  echoed value = ground (arith, nat_beq_iff (complement value) (complement value))

  sync_byte-echoing :
      IsEchoing
      → (index value : ℕ) (w : World usb.Bus) → (sync_byte usb pair index value w).0 ≡ ok true
  unfolding sync_byte ◌>>=◌ call print
  sync_byte-echoing d index value w =
      rw (d.takes value w.bus) (rw (d.answers value w.bus) (rw (echoed value) refl))

  sync_loop-echoing :
      IsEchoing
      → (index : ℕ) (bytes : Bytes) (w : World usb.Bus)
      → (sync_loop usb pair index bytes w).0 ≡ ok true
  sync_loop-echoing d index [] w = unfold sync_loop in refl
  sync_loop-echoing d index (value ∷ rest) w =
      rw (continued index value rest w (sync_byte-echoing d index value w))
        (sync_loop-echoing d (index + 1) rest (sync_byte usb pair index value w).1)

  -- With a device that echoes complements the handshake succeeds.
  pub run_handshake-echoing :
      IsEchoing → (w : World usb.Bus) → (run_handshake usb pair w).0 ≡ ok true
  unfolding run_handshake
  run_handshake-echoing d w = sync_loop-echoing d 1 start_command w
