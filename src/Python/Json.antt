-- ===== src/Python/Json.antt =====
-- `json.dumps(value, indent=2, sort_keys=True)`.
use oukitel_rt7_linux.Prelude.{
  ℕ, zero, suc, ◌+◌, ◌-◌, ◌*◌, ◌/◌, ◌%◌, ◌≡◌, refl, Bool, true, false, ◌&&◌, ◌||◌, [], ◌∷◌, ◌++◌,
  ltb, leb, replicate, ◌==◌, nat_eq, if◌then◌else◌,
}
use mathlib.Core.List.{flat_map}
use oukitel_rt7_linux.Python.Text.{Text, text, hex}

mutual
  pub data Json : Type 0 where
    str : Text → Json
    num : ℕ → Json
    bool : Bool → Json
    arr : Items → Json
    obj : Fields → Json

  pub data Items : Type 0 where
    nil : Items
    item : Json → Items → Items

  pub data Fields : Type 0 where
    end : Fields
    field : Text → Json → Fields → Fields

-- The order of strings, by code points.
unfoldable pub text_le : Text → Text → Bool
text_le [] t = true
text_le (c ∷ s) [] = false
text_le (c ∷ s) (d ∷ t) = ltb c d || ((c == d) && text_le s t)

unfoldable pub insert_field : Text → Json → Fields → Fields
unfolding text_le
insert_field key value end = field key value end
insert_field key value (field k v fields) =
    let rest = insert_field key value fields in
    if text_le key k then field key value (field k v fields) else field k v rest

unfoldable mutual
  unfolding insert_field

  pub sort_keys : Json → Json
  sort_keys (str s) = str s
  sort_keys (num n) = num n
  sort_keys (bool b) = bool b
  sort_keys (arr items) = arr (sort_items items)
  sort_keys (obj fields) = obj (sort_fields fields)

  sort_items : Items → Items
  sort_items nil = nil
  sort_items (item value items) = item (sort_keys value) (sort_items items)

  sort_fields : Fields → Fields
  sort_fields end = end
  sort_fields (field key value fields) = insert_field key (sort_keys value) (sort_fields fields)

-- The decimal digits, with fuel; a number has no more digits than its value and one.
unfoldable pub decimal_digits : ℕ → ℕ → Text
decimal_digits zero n = []
decimal_digits (suc fuel) n = elim (ltb n 10) [
  | true ↦ (b'0' + n) ∷ []
  | false ↦ decimal_digits fuel (n / 10) ++ ((b'0' + n % 10) ∷ [])
]

unfoldable pub decimal : ℕ → Text
unfolding decimal_digits
decimal n = decimal_digits (suc n) n

abbrev unicode_escape : ℕ → Text
unicode_escape u = text "\\u" ++ hex (u / 256 ∷ u % 256 ∷ [])

-- One character of a string, in ASCII.
unfoldable pub escape : ℕ → Text
unfolding hex
escape c =
    if c == 34
    then text "\\\""
    else if c == 92
    then text "\\\\"
    else if c == 10
    then text "\\n"
    else if c == 13
    then text "\\r"
    else if c == 9
    then text "\\t"
    else if c == 8
    then text "\\b"
    else if c == 12
    then text "\\f"
    else if leb 32 c && leb c 126
    then c ∷ []
    else if ltb c 0x10000
    then unicode_escape c
    else unicode_escape (0xD800 + (c - 0x10000) / 0x400)
      ++ unicode_escape (0xDC00 + (c - 0x10000) % 0x400)

unfoldable pub quote : Text → Text
unfolding escape flat_map
quote s = text "\"" ++ (flat_map escape s ++ text "\"")

-- A line break and the indentation of a level.
abbrev new_line : ℕ → Text
new_line level = 10 ∷ replicate (2 * level) b' '

unfoldable mutual
  unfolding quote decimal

  pub dump : ℕ → Json → Text
  dump level (str s) = quote s
  dump level (num n) = decimal n
  dump level (bool true) = text "true"
  dump level (bool false) = text "false"
  dump level (arr nil) = text "[]"
  dump level (arr (item value items)) =
      text "[" ++ (new_line (level + 1) ++ (dump (level + 1) value ++ dump_items level items))
  dump level (obj end) = text "{}"
  dump level (obj (field key value fields)) =
      text "{"
      ++ (new_line (level + 1)
          ++ (quote key ++ (text ": " ++ (dump (level + 1) value ++ dump_fields level fields))))

  dump_items : ℕ → Items → Text
  dump_items level nil = new_line level ++ text "]"
  dump_items level (item value items) =
      text "," ++ (new_line (level + 1) ++ (dump (level + 1) value ++ dump_items level items))

  dump_fields : ℕ → Fields → Text
  dump_fields level end = new_line level ++ text "}"
  dump_fields level (field key value fields) =
      text ","
      ++ (new_line (level + 1)
          ++ (quote key ++ (text ": " ++ (dump (level + 1) value ++ dump_fields level fields))))

unfoldable pub dumps : Json → Text
unfolding dump sort_keys
dumps value = dump 0 (sort_keys value)

dumps_runs :
    dumps (
      obj (
        field
          (text "b")
          (arr (item (num 10) (item (bool true) nil)))
          (field (text "a") (str (text "x\"y")) end)))
    ≡ text "{\n  \"a\": \"x\\\"y\",\n  \"b\": [\n    10,\n    true\n  ]\n}"
unfolding dumps
dumps_runs = refl
