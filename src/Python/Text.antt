-- ===== src/Python/Text.antt =====
-- `str` as the list of its code points.
pub mod Split
use Prim.Native.Char.{code}
use mathlib.Core.List.{flat_map, reverse}
use oukitel_rt7_linux.Prelude.{
  ℕ, zero, suc, ◌+◌, ◌/◌, ◌%◌, ◌≡◌, refl, ap, Bool, true, false, ◌&&◌, ◌||◌, List, [], ◌∷◌, ◌++◌,
  String, arith, ltb, leb, ◌==◌, ◌-◌, nat_eq, list_eq, length, if◌then◌else◌,
}

abbrev pub Text : Type 0
Text = List ℕ

-- The text of a literal. `String` has its own `[]` and `∷`.
abbrev pub text : String → Text
text String.[] = []
text (String.◌∷◌ c s) = code c ∷ text s

-- `s.split("\0", 1)[0]`: what stands before the first NUL.
unfoldable pub before_nul : Text → Text
before_nul [] = []
before_nul (c ∷ s) = let rest = before_nul s in if c == 0 then [] else c ∷ rest

-- `prefix` stands at the start of the text.
unfoldable pub starts_with : Text → Text → Bool
starts_with [] s = true
starts_with (c ∷ cs) [] = false
starts_with (c ∷ cs) (d ∷ s) = (c == d) && starts_with cs s

-- `needle in s`
unfoldable pub has_infix : Text → Text → Bool
unfolding starts_with
has_infix needle [] = starts_with needle []
has_infix needle (c ∷ s) = starts_with needle (c ∷ s) || has_infix needle s

-- `c.isspace()` of one character.
unfoldable pub is_space : ℕ → Bool
is_space c =
    (leb 9 c && leb c 13)
    || (leb 28 c && leb c 32)
    || (c == 0x85)
    || (c == 0xA0)
    || (c == 0x1680)
    || (leb 0x2000 c && leb c 0x200A)
    || (c == 0x2028)
    || (c == 0x2029)
    || (c == 0x202F)
    || (c == 0x205F)
    || (c == 0x3000)

unfoldable pub lstrip : Text → Text
unfolding is_space
lstrip [] = []
lstrip (c ∷ s) = if is_space c then lstrip s else c ∷ s

-- `s.strip()`
unfoldable pub strip : Text → Text
unfolding lstrip
strip s = reverse (lstrip (reverse (lstrip s)))

-- `s.count(marker)`, of occurrences that do not overlap; the number is what is still passed over.
unfoldable pub count_from : Text → ℕ → Text → ℕ
unfolding starts_with
count_from marker passed [] = 0
count_from marker (suc passed) (c ∷ s) = count_from marker passed s
count_from marker zero (c ∷ s) =
    let hit = starts_with marker (c ∷ s) in
    let rest = count_from marker (if hit then length marker - 1 else 0) s in
    if hit then suc rest else rest

unfoldable pub count : Text → Text → ℕ
unfolding count_from
count marker s = count_from marker 0 s

count_runs : count (text "aa") (text "aaaabaa") ≡ 3
unfolding count starts_with
count_runs = refl

abbrev hex_digit : ℕ → ℕ
hex_digit d = if ltb d 10 then d + b'0' else d + 87

-- `bytes.hex()`
unfoldable pub hex : List ℕ → Text
hex [] = []
hex (b ∷ bs) = hex_digit (b / 16) ∷ hex_digit (b % 16) ∷ hex bs

hex_runs : hex (0x00 ∷ 0xFF ∷ 0x1A ∷ []) ≡ text "00ff1a"
unfolding hex
hex_runs = refl
