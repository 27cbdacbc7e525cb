-- ===== src/Python/Streams.antt =====
-- A file that is read in blocks: `iter(lambda: stream.read(size), b"")`.
use oukitel_rt7_linux.Prelude.{
  ℕ, zero, suc, ◌≤◌, ◌<◌, ◌≡◌, refl, ap, ◌∙◌, List, [], ◌∷◌, ◌++◌, arith, length, take, drop,
  take-append-drop, length-drop,
}
use mathlib.Core.List.{flatten}
use oukitel_rt7_linux.Python.Bytes.{Bytes}

-- The blocks, with fuel. The first empty block ends the stream.
unfoldable pub blocks : ℕ → ℕ → Bytes → List Bytes
blocks zero size bytes = []
blocks (suc fuel) size bytes = elim (take size bytes) [
  | [] ↦ []
  | b ∷ bs ↦ (b ∷ bs) ∷ blocks fuel size (drop size bytes)
]

-- Each round takes one byte at least, so the length is fuel enough.
unfoldable pub read_blocks : ℕ → Bytes → List Bytes
unfolding blocks
read_blocks size bytes = blocks (length bytes) size bytes

blocks-flatten :
    (fuel size : ℕ) (bytes : Bytes)
    → 0 < size
    → length bytes ≤ fuel
    → flatten (blocks fuel size bytes) ≡ bytes
unfolding blocks flatten
blocks-flatten zero size [] s h = refl
blocks-flatten zero size (b ∷ bytes) s h = absurd (omega arith)
blocks-flatten (suc fuel) zero bytes s h = absurd (omega arith)
blocks-flatten (suc fuel) (suc size) [] s h = refl
blocks-flatten (suc fuel) (suc size) (b ∷ bytes) s h =
    ap (λ l. b ∷ (take size bytes ++ l))
      (blocks-flatten fuel (suc size) (drop size bytes) s (omega (arith, length-drop size bytes)))
    ∙ ap (λ l. b ∷ l) (take-append-drop size bytes)

-- The blocks hold the whole file.
pub read_blocks-flatten :
    (size : ℕ) (bytes : Bytes) → 0 < size → flatten (read_blocks size bytes) ≡ bytes
unfolding read_blocks
read_blocks-flatten size bytes s = blocks-flatten (length bytes) size bytes s (omega arith)
