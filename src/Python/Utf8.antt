-- ===== src/Python/Utf8.antt =====
-- `bytes.decode()`, strict UTF-8; `none` is a `UnicodeDecodeError`.
use mathlib.Core.Option
use oukitel_rt7_linux.Prelude.{
  ℕ, ◌+◌, ◌*◌, ◌%◌, ◌≡◌, refl, Bool, ◌&&◌, ◌||◌, Option, none, some, [], ◌∷◌, leb, ltb,
  if◌then◌else◌,
}
use oukitel_rt7_linux.Python.Bytes.{Bytes}
use oukitel_rt7_linux.Python.Text.{Text}

abbrev is_tail : ℕ → Bool
is_tail b = leb 0x80 b && ltb b 0xC0

abbrev prepend : ℕ → Option Text → Option Text
prepend c = Option.map (λ (s : Text). c ∷ s)

-- The two byte forms are the shortest ones, and no form gives a surrogate or leaves the range.
abbrev two : ℕ → ℕ → Bool
two a b = leb 0xC2 a && leb a 0xDF && is_tail b

abbrev three : ℕ → ℕ → ℕ → Bool
three a b c =
    leb 0xE0 a
    && leb a 0xEF
    && is_tail b
    && is_tail c
    && (ltb 0xE0 a || leb 0xA0 b)
    && (ltb a 0xED || ltb 0xED a || ltb b 0xA0)

abbrev four : ℕ → ℕ → ℕ → ℕ → Bool
four a b c d =
    leb 0xF0 a
    && leb a 0xF4
    && is_tail b
    && is_tail c
    && is_tail d
    && (ltb 0xF0 a || leb 0x90 b)
    && (ltb a 0xF4 || ltb b 0x90)

unfoldable pub decode_utf8 : Bytes → Option Text
decode_utf8 [] = some []
decode_utf8 (a ∷ []) = if ltb a 0x80 then some (a ∷ []) else none
decode_utf8 (a ∷ b ∷ []) =
    let one = prepend a (decode_utf8 (b ∷ [])) in
    if ltb a 0x80 then one else if two a b then some (((a % 32) * 64 + b % 64) ∷ []) else none
decode_utf8 (a ∷ b ∷ c ∷ []) =
    let one = prepend a (decode_utf8 (b ∷ c ∷ [])) in
    let after_two = prepend ((a % 32) * 64 + b % 64) (decode_utf8 (c ∷ [])) in
    if ltb a 0x80
    then one
    else if two a b
    then after_two
    else if three a b c
    then some (((a % 16) * 4096 + (b % 64) * 64 + c % 64) ∷ [])
    else none
decode_utf8 (a ∷ b ∷ c ∷ d ∷ s) =
    let one = prepend a (decode_utf8 (b ∷ c ∷ d ∷ s)) in
    let after_two = prepend ((a % 32) * 64 + b % 64) (decode_utf8 (c ∷ d ∷ s)) in
    let after_three = prepend ((a % 16) * 4096 + (b % 64) * 64 + c % 64) (decode_utf8 (d ∷ s)) in
    let after_four =
      prepend ((a % 8) * 262144 + (b % 64) * 4096 + (c % 64) * 64 + d % 64) (decode_utf8 s) in
    if ltb a 0x80
    then one
    else if two a b
    then after_two
    else if three a b c
    then after_three
    else if four a b c d
    then after_four
    else none

decode_runs :
    decode_utf8 (0x61 ∷ 0xC3 ∷ 0xA9 ∷ 0xE2 ∷ 0x82 ∷ 0xAC ∷ 0xF0 ∷ 0x9F ∷ 0x98 ∷ 0x80 ∷ [])
    ≡ some (0x61 ∷ 0xE9 ∷ 0x20AC ∷ 0x1F600 ∷ [])
unfolding decode_utf8
decode_runs = refl

decode_overlong : decode_utf8 (0xC0 ∷ 0x80 ∷ []) ≡ none
unfolding decode_utf8
decode_overlong = refl
