-- ===== src/Python/Bytes.antt =====
-- `bytes` as the list of their values, cut by slices, and read as little-endian integers.
use oukitel_rt7_linux.Prelude.{
  ℕ, zero, suc, ◌+◌, ◌-◌, ◌*◌, ◌/◌, ◌%◌, ◌^◌, ◌<◌, ◌≤◌, ◌≡◌, refl, ap, List, [], ◌∷◌, ◌++◌, arith,
  length, take, drop, length-take, take-append, drop-append, length-drop,
}
use native.Mathlib.Nat.{pow-suc}

abbrev pub Bytes : Type 0
Bytes = List ℕ

-- `data[first:last]`, which is cut at the end of the data and empty if `last <= first`.
unfoldable pub slice : ℕ → ℕ → Bytes → Bytes
slice first last bytes = take (last - first) (drop first bytes)

pub length-slice :
    (first last : ℕ) (bytes : Bytes)
    → last ≤ length bytes
    → length (slice first last bytes) ≡ last - first
unfolding slice
length-slice first last bytes h =
    omega (arith, length-take (last - first) (drop first bytes), length-drop first bytes)

pub slice-append :
    (a b c : Bytes) (n : ℕ) → n ≡ length b → slice (length a) (length a + n) (a ++ (b ++ c)) ≡ b
unfolding slice
slice-append a b c n h =
    rw (drop-append a (b ++ c) (length a) refl) (take-append b c _ (omega arith))

-- `int.from_bytes(_, "little")`
unfoldable pub from_le : Bytes → ℕ
from_le [] = 0
from_le (b ∷ bs) = b + 256 * from_le bs

-- `x.to_bytes(width, "little")`
unfoldable pub to_le : ℕ → ℕ → Bytes
to_le zero x = []
to_le (suc width) x = (x % 256) ∷ to_le width (x / 256)

pub length-to_le : (width x : ℕ) → length (to_le width x) ≡ width
unfolding to_le
length-to_le zero x = refl
length-to_le (suc width) x = ap suc (length-to_le width (x / 256))

pub from_le-to_le : (width x : ℕ) → x < 256 ^ width → from_le (to_le width x) ≡ x
unfolding from_le to_le
from_le-to_le zero x h = omega arith
from_le-to_le (suc width) x h =
    let smaller : x / 256 < 256 ^ width = omega (arith, pow-suc 256 width) in
    omega (arith, from_le-to_le width (x / 256) smaller)
