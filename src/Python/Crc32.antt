-- ===== src/Python/Crc32.antt =====
-- `zlib.crc32`, the bit-by-bit form of the reflected polynomial.
use Prim.Native.Nat.{bit_xor}
use mathlib.Core.List.{foldl}
use oukitel_rt7_linux.Prelude.{ℕ, ◌/◌, ◌%◌, ◌≡◌, refl, ◌==◌, nat_eq, if◌then◌else◌}
use oukitel_rt7_linux.Python.Bytes.{Bytes}
use oukitel_rt7_linux.Python.Text.{text}

shift : ℕ → ℕ
shift c = if c % 2 == 1 then bit_xor (c / 2) 0xEDB88320 else c / 2

feed : ℕ → ℕ → ℕ
unfolding shift
feed c b = shift (shift (shift (shift (shift (shift (shift (shift (bit_xor c b))))))))

unfoldable pub crc32 : Bytes → ℕ
unfolding feed
crc32 bytes = bit_xor (foldl feed 0xFFFFFFFF bytes) 0xFFFFFFFF

crc32_check : crc32 (text "123456789") ≡ 0xCBF43926
unfolding crc32
crc32_check = refl
