-- ===== src/Python/Struct.antt =====
-- `struct`: little-endian formats without padding, of which the scripts use `s`, `I` and `Q`.
use oukitel_rt7_linux.Prelude.{
  ℕ, ◌+◌, ◌^◌, ◌<◌, ◌≡◌, refl, List, [], ◌∷◌, ◌++◌, append_assoc, arith, length, take, drop,
  take-append, drop-append, length-append,
}
use oukitel_rt7_linux.Python.Bytes.{Bytes, from_le, to_le, length-to_le, from_le-to_le}

pub data Code : Type 0 where
  chars : ℕ → Code
  uint32 uint64 : Code

abbrev pub width : Code → ℕ
width (chars n) = n
width uint32 = 4
width uint64 = 8

abbrev pub Value : Code → Type 0
Value (chars n) = Bytes
Value uint32 = ℕ
Value uint64 = ℕ

-- The tuple that a format unpacks to.
abbrev pub Values : List Code → Type 0
Values [] = Unit
Values (c ∷ cs) = Value c × Values cs

-- `Struct.size`
abbrev pub size : List Code → ℕ
size [] = 0
size (c ∷ cs) = width c + size cs

abbrev decode : (c : Code) → Bytes → Value c
decode (chars n) bytes = bytes
decode uint32 bytes = from_le bytes
decode uint64 bytes = from_le bytes

-- `unpack_from`, at the start of data that hold at least `size` bytes (else Python raises).
unfoldable pub unpack : (cs : List Code) → Bytes → Values cs
unpack [] bytes = tt
unpack (c ∷ cs) bytes = (decode c (take (width c) bytes), unpack cs (drop (width c) bytes))

abbrev encode : (c : Code) → Value c → Bytes
encode (chars n) v = v
encode uint32 v = to_le 4 v
encode uint64 v = to_le 8 v

unfoldable pub pack : (cs : List Code) → Values cs → Bytes
pack [] v = []
pack (c ∷ cs) v = encode c v.0 ++ pack cs v.1

abbrev FitsCode : (c : Code) → Value c → Type 0
FitsCode (chars n) v = length v ≡ n
FitsCode uint32 v = v < 256 ^ 4
FitsCode uint64 v = v < 256 ^ 8

-- Values that the format can hold.
abbrev pub Fits : (cs : List Code) → Values cs → Type 0
Fits [] v = Unit
Fits (c ∷ cs) v = FitsCode c v.0 × Fits cs v.1

length-encode : (c : Code) (v : Value c) → FitsCode c v → width c ≡ length (encode c v)
length-encode (chars n) v h = omega arith
length-encode uint32 v h = omega (arith, length-to_le 4 v)
length-encode uint64 v h = omega (arith, length-to_le 8 v)

decode-encode : (c : Code) (v : Value c) → FitsCode c v → decode c (encode c v) ≡ v
decode-encode (chars n) v h = refl
decode-encode uint32 v h = from_le-to_le 4 v h
decode-encode uint64 v h = from_le-to_le 8 v h

pub length-pack : (cs : List Code) (v : Values cs) → Fits cs v → length (pack cs v) ≡ size cs
unfolding pack
length-pack [] v h = refl
length-pack (c ∷ cs) v h = omega (
  arith,
  length-append (encode c v.0) (pack cs v.1),
  length-encode c v.0 h.0,
  length-pack cs v.1 h.1,
)

pub unpack-pack :
    (cs : List Code) (v : Values cs) (rest : Bytes) → Fits cs v → unpack cs (pack cs v ++ rest) ≡ v
unfolding unpack pack
unpack-pack [] v rest h = refl
unpack-pack (c ∷ cs) v rest h =
    let e = encode c v.0 in
    let long = length-encode c v.0 h.0 in
    rw (append_assoc e (pack cs v.1) rest) (
      rw
        (
          take-append e (pack cs v.1 ++ rest) (width c) long,
          drop-append e (pack cs v.1 ++ rest) (width c) long,
        )
        λ i. (decode-encode c v.0 h.0 i, unpack-pack cs v.1 rest h.1 i))
