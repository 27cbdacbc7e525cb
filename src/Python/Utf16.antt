-- ===== src/Python/Utf16.antt =====
-- `bytes.decode("utf-16-le")`; `none` is a `UnicodeDecodeError`.
use mathlib.Core.Option
use oukitel_rt7_linux.Prelude.{
  ℕ, ◌+◌, ◌-◌, ◌*◌, ◌≡◌, refl, Bool, ◌&&◌, Option, none, some, List, [], ◌∷◌, leb, if◌then◌else◌,
}
use oukitel_rt7_linux.Python.Bytes.{Bytes}
use oukitel_rt7_linux.Python.Text.{Text}

abbrev is_high_surrogate : ℕ → Bool
is_high_surrogate u = leb 0xD800 u && leb u 0xDBFF

abbrev is_low_surrogate : ℕ → Bool
is_low_surrogate u = leb 0xDC00 u && leb u 0xDFFF

-- The 16-bit units; a byte that is left over is an error.
unfoldable pub units : Bytes → Option (List ℕ)
units [] = some []
units (a ∷ []) = none
units (a ∷ b ∷ rest) = Option.map (λ us. (a + 256 * b) ∷ us) (units rest)

-- Code points. A surrogate stands only in a pair, the high one first.
unfoldable pub join_surrogates : List ℕ → Option Text
join_surrogates [] = some []
join_surrogates (u ∷ []) =
    if is_high_surrogate u then none else if is_low_surrogate u then none else some (u ∷ [])
join_surrogates (u ∷ v ∷ us) =
    let pair = 0x10000 + (u - 0xD800) * 0x400 + (v - 0xDC00) in
    let after_pair = Option.map (λ (s : Text). pair ∷ s) (join_surrogates us) in
    let after_one = Option.map (λ (s : Text). u ∷ s) (join_surrogates (v ∷ us)) in
    if is_high_surrogate u
    then (if is_low_surrogate v then after_pair else none)
    else if is_low_surrogate u
    then none
    else after_one

unfoldable pub decode_utf16_le : Bytes → Option Text
unfolding units join_surrogates Option.bind
decode_utf16_le bytes = Option.bind (units bytes) join_surrogates

decode_runs :
    decode_utf16_le (0x62 ∷ 0 ∷ 0x3D ∷ 0xD8 ∷ 0x00 ∷ 0xDE ∷ []) ≡ some (0x62 ∷ 0x1F600 ∷ [])
unfolding decode_utf16_le
decode_runs = refl

decode_lone : decode_utf16_le (0x3D ∷ 0xD8 ∷ 0x62 ∷ 0 ∷ []) ≡ none
unfolding decode_utf16_le
decode_lone = refl
