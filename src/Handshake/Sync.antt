-- ===== src/Handshake/Sync.antt =====
-- `run_handshake` of scripts/probe-mtk-handshake.py.
pub mod Echo
use Prim.Native.Nat.{bit_xor}
use oukitel_rt7_linux.Prelude.{
  ℕ, ◌+◌, ◌≡◌, Bool, true, false, ◌||◌, List, [], ◌∷◌, ◌++◌, Option, none, some, ◌!=◌, nat_eq,
  if◌then◌else◌, ok, err, Result,
}
use oukitel_rt7_linux.Prelude.Exec.{◌>>=◌, ◌>>◌, pure, raise, attempt}
use oukitel_rt7_linux.Python.Bytes.{Bytes}
use oukitel_rt7_linux.Handshake.Usb.{
  Usb, World, Probe, Exception, Line, call, print, bulk_write, bulk_read, sync_error, sync_reply,
  usb_error,
}
use oukitel_rt7_linux.Handshake.Endpoints.{EndpointPair}

abbrev pub start_command : Bytes
start_command = 0xA0 ∷ 0x0A ∷ 0x50 ∷ 0x05 ∷ []

-- `echo[0] if len(echo) == 1 else None` differs from the byte that is expected.
unfoldable pub is_wrong_echo : Bytes → ℕ → Bool
is_wrong_echo (b ∷ []) expected = b != expected
is_wrong_echo _ expected = true

abbrev pub complement : ℕ → ℕ
complement value = bit_xor value 0xFF

module _ (usb : Usb) (pair : EndpointPair) where
  -- One byte out and one byte in.
  unfoldable pub exchange : ℕ → Probe usb (ℕ × Bytes)
  unfolding call
  exchange value = do
    written ←
        call usb (bulk_write pair.endpoint_out (value ∷ []))
          (usb.write pair.endpoint_out (value ∷ []))
    echo ← call usb (bulk_read pair.endpoint_in 1) (usb.read pair.endpoint_in 1)
    pure (written, echo)

  abbrev pub judge : ℕ → ℕ → ℕ × Bytes → Probe usb Bool
  judge index value (written, echo) = do
    print usb (sync_reply index value written echo (complement value))
    pure (if written != 1 || is_wrong_echo echo (complement value) then false else true)

  abbrev pub report : ℕ → ℕ → Result Exception (ℕ × Bytes) → Probe usb Bool
  report index value (ok reply) = judge index value reply
  report index value (err (usb_error message)) = do
    print usb (sync_error index value (usb_error message))
    pure false
  report index value (err other) = raise other

  -- One round of the loop, and whether it goes on.
  unfoldable pub sync_byte : ℕ → ℕ → Probe usb Bool
  unfolding exchange
  sync_byte index value = do outcome ← attempt (exchange value); report index value outcome

  unfoldable pub sync_loop : ℕ → Bytes → Probe usb Bool
  unfolding sync_byte
  sync_loop index [] = pure true
  sync_loop index (value ∷ rest) = do
    good ← sync_byte index value
    if good then sync_loop (index + 1) rest else pure false

  unfoldable pub run_handshake : Probe usb Bool
  unfolding sync_loop
  run_handshake = sync_loop 1 start_command
