-- ===== src/Wsl/Output.antt =====
-- decodeOutput and decodeUTF16: the output of wsl.exe as UTF-8 text.
use envorca.Prelude.{
  ℕ, ◌+◌, ◌-◌, ◌*◌, Bool, true, false, ◌&&◌, Option, none, some, List, [], ◌∷◌, ◌++◌, take, ltb,
  leb, ◌==◌, if◌then◌else◌,
}
use envorca.Text.{Text, utf8, index_byte}
use envorca.Text.Trim.{trim_space}

pub data ByteOrder : Type 0 where
  little_endian big_endian : ByteOrder

abbrev pub unit : ByteOrder → ℕ → ℕ → ℕ
unit ByteOrder.little_endian a b = a + 256 * b
unit ByteOrder.big_endian a b = 256 * a + b

-- The 16-bit units of the bytes; an odd last byte is dropped.
unfoldable pub units : ByteOrder → Text → List ℕ
units order [] = []
units order (a ∷ []) = []
units order (a ∷ b ∷ s) = unit order a b ∷ units order s

abbrev pub is_high : ℕ → Bool
is_high u = leb 0xd800 u && ltb u 0xdc00

abbrev pub is_low : ℕ → Bool
is_low u = leb 0xdc00 u && ltb u 0xe000

-- utf16.Decode, as UTF-8: a surrogate with no partner is U+FFFD. The first argument is a high
-- surrogate that waits for its partner.
unfoldable pub decode_units : Option ℕ → List ℕ → Text
decode_units none [] = []
decode_units (some h) [] = utf8 0xfffd
decode_units none (u ∷ us) = elim (is_high u) [
  | true ↦ decode_units (some u) us
  | false ↦ utf8 (if is_low u then 0xfffd else u) ++ decode_units none us
]
decode_units (some h) (u ∷ us) = elim (is_low u) [
  | true ↦ utf8 ((h - 0xd800) * 1024 + (u - 0xdc00) + 0x10000) ++ decode_units none us
  | false ↦ utf8 0xfffd ++ elim (is_high u) [
    | true ↦ decode_units (some u) us
    | false ↦ utf8 u ++ decode_units none us
  ]
]

unfoldable pub decode_utf16 : Text → ByteOrder → Text
unfolding units decode_units
decode_utf16 b order = trim_space (decode_units none (units order b))

-- With no byte-order mark: a NUL in the first 256 bytes means UTF-16.
unfoldable pub decode_unmarked : Text → Text
unfolding decode_utf16
decode_unmarked b = elim (index_byte (take 256 b) 0) [
  | some i ↦ decode_utf16 b little_endian
  | none ↦ trim_space b
]

unfoldable pub decode_output : Text → Text
unfolding decode_unmarked decode_utf16
decode_output [] = decode_unmarked []
decode_output (a ∷ []) = decode_unmarked (a ∷ [])
decode_output (a ∷ b ∷ s) =
    if a == 0xff && b == 0xfe
    then decode_utf16 s little_endian
    else if a == 0xfe && b == 0xff
    then decode_utf16 s big_endian
    else decode_unmarked (a ∷ b ∷ s)
