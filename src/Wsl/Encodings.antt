-- ===== src/Wsl/Encodings.antt =====
-- The encodings of wsl.exe's output, and decodeOutput on them (daemon/internal/wsl/wsl.go).
use envorca.Prelude.{
  ℕ, zero, suc, ◌+◌, ◌-◌, ◌/◌, ◌%◌, ◌≤◌, ◌<◌, ◌≡◌, ◌⊎◌, inl, refl, ap, ◌∙◌, none, some, List, [],
  ◌∷◌, ◌++◌, All, All-weaken, take, ltb, if◌then◌else◌, arith,
}
use envorca.Text.{Text, utf8, index_byte}
use envorca.Text.Trim.{trim_space}
use envorca.Wsl.Output.{
  ByteOrder, little_endian, big_endian, units, decode_units, decode_utf16, decode_unmarked,
  decode_output,
}

-- A Unicode code point that is no surrogate.
abbrev pub IsRune : ℕ → Type 0
IsRune r = (r < 0xd800) ⊎ ((0xe000 ≤ r) × (r < 0x110000))

-- The UTF-16 encoding, one or two units for each character.
abbrev pub units_of : ℕ → List ℕ
units_of r =
    if ltb r 0x10000
    then r ∷ []
    else (0xd800 + (r - 0x10000) / 1024) ∷ (0xdc00 + (r - 0x10000) % 1024) ∷ []

abbrev pub to_utf16 : List ℕ → List ℕ
to_utf16 [] = []
to_utf16 (r ∷ rs) = units_of r ++ to_utf16 rs

abbrev pub to_bytes : ByteOrder → List ℕ → Text
to_bytes order [] = []
to_bytes ByteOrder.little_endian (u ∷ us) = u % 256 ∷ u / 256 ∷ to_bytes little_endian us
to_bytes ByteOrder.big_endian (u ∷ us) = u / 256 ∷ u % 256 ∷ to_bytes big_endian us

abbrev pub to_utf8 : List ℕ → Text
to_utf8 [] = []
to_utf8 (r ∷ rs) = utf8 r ++ to_utf8 rs

units-to_bytes : (order : ByteOrder) (us : List ℕ) → units order (to_bytes order us) ≡ us
unfolding units
units-to_bytes ByteOrder.little_endian [] = refl
units-to_bytes ByteOrder.big_endian [] = refl
units-to_bytes ByteOrder.little_endian (u ∷ us) = ground (arith, units-to_bytes little_endian us)
units-to_bytes ByteOrder.big_endian (u ∷ us) = ground (arith, units-to_bytes big_endian us)

decode_units-rune :
    (r : ℕ) (us : List ℕ)
    → IsRune r
    → decode_units none (units_of r ++ us) ≡ utf8 r ++ decode_units none us
unfolding decode_units
decode_units-rune r us h = ground arith

decode_units-to_utf16 : (rs : List ℕ) → All IsRune rs → decode_units none (to_utf16 rs) ≡ to_utf8 rs
decode_units-to_utf16 [] h = unfold decode_units in refl
decode_units-to_utf16 (r ∷ rs) (p, h) =
    decode_units-rune r (to_utf16 rs) p ∙ ap (λ t. utf8 r ++ t) (decode_units-to_utf16 rs h)

abbrev pub IsAscii : ℕ → Type 0
IsAscii c = (0 < c) × (c < 128)

index_byte-ascii : (n : ℕ) (t : Text) → All IsAscii t → index_byte (take n t) 0 ≡ none
unfolding index_byte
index_byte-ascii zero t h = refl
index_byte-ascii (suc n) [] h = refl
index_byte-ascii (suc n) (c ∷ t) (p, h) = ground (arith, index_byte-ascii n t h)

to_utf16-ascii : (t : Text) → All IsAscii t → to_utf16 t ≡ t
to_utf16-ascii [] h = refl
to_utf16-ascii (c ∷ t) (p, h) = ground (arith, to_utf16-ascii t h)

to_utf8-ascii : (t : Text) → All IsAscii t → to_utf8 t ≡ t
unfolding utf8
to_utf8-ascii [] h = refl
to_utf8-ascii (c ∷ t) (p, h) = ground (arith, to_utf8-ascii t h)

IsAscii-IsRune : (c : ℕ) → IsAscii c → IsRune c
IsAscii-IsRune c h = inl (omega arith)

decode_utf16-to_bytes :
    (order : ByteOrder) (rs : List ℕ)
    → All IsRune rs
    → decode_utf16 (to_bytes order (to_utf16 rs)) order ≡ trim_space (to_utf8 rs)
unfolding decode_utf16
decode_utf16-to_bytes order rs h = rw units-to_bytes (ap trim_space (decode_units-to_utf16 rs h))

abbrev pub marked : ByteOrder → Text → Text
marked ByteOrder.little_endian b = 0xff ∷ 0xfe ∷ b
marked ByteOrder.big_endian b = 0xfe ∷ 0xff ∷ b

-- UTF-16 output behind a byte-order mark, of either order, is read as the UTF-8 of its characters with
-- the white space around them removed; surrogate pairs included.
pub decode_output-marked :
    (order : ByteOrder) (rs : List ℕ)
    → All IsRune rs
    → decode_output (marked order (to_bytes order (to_utf16 rs))) ≡ trim_space (to_utf8 rs)
unfolding decode_output
decode_output-marked ByteOrder.little_endian rs h = decode_utf16-to_bytes little_endian rs h
decode_output-marked ByteOrder.big_endian rs h = decode_utf16-to_bytes big_endian rs h

decode_unmarked-ascii : (t : Text) → All IsAscii t → decode_unmarked t ≡ trim_space t
unfolding decode_unmarked
decode_unmarked-ascii t h = rw (index_byte-ascii 256 t h, decode_unmarked)

decode_output_utf8 : (t : Text) → All IsAscii t → decode_output t ≡ trim_space t
unfolding decode_output
decode_output_utf8 [] h = decode_unmarked-ascii [] tt
decode_output_utf8 (a ∷ []) h = decode_unmarked-ascii (a ∷ []) h
decode_output_utf8 (a ∷ b ∷ t) (p, h) = ground (arith, decode_unmarked-ascii (a ∷ b ∷ t) (p, h))

-- The high byte of the first character is a NUL.
index_byte-to_bytes :
    (c : ℕ) (t : Text)
    → IsAscii c
    → index_byte (take 256 (to_bytes little_endian (c ∷ t))) 0 ≡ some 1
unfolding index_byte
index_byte-to_bytes c t h = ground arith

decode_output_unmarked :
    (t : Text)
    → All IsAscii t
    → decode_output (to_bytes little_endian t)
      ≡ decode_utf16 (to_bytes little_endian t) little_endian
unfolding decode_output decode_unmarked decode_utf16
decode_output_unmarked [] h = unfold trim_space index_byte in refl
decode_output_unmarked (c ∷ t) (p, h) = ground (arith, index_byte-to_bytes c t p)

-- ASCII output is read alike in all the encodings that wsl.exe uses: UTF-8, UTF-16 of either order with a
-- byte-order mark, and little-endian UTF-16 with none.
pub decode_output-ascii :
    (t : Text)
    → All IsAscii t
    → (decode_output t ≡ trim_space t)
      × (decode_output (to_bytes little_endian t) ≡ trim_space t)
      × (decode_output (marked little_endian (to_bytes little_endian t)) ≡ trim_space t)
      × (decode_output (marked big_endian (to_bytes big_endian t)) ≡ trim_space t)
decode_output-ascii t h =
    let runes = All-weaken IsAscii IsRune t IsAscii-IsRune h in
    let wide = to_utf16-ascii t h in
    let narrow = to_utf8-ascii t h in
    let read_back =
      λ (order : ByteOrder). rw (wide, narrow) at (decode_utf16-to_bytes order t runes) in
    let marked_back =
      λ (order : ByteOrder). rw (wide, narrow) at (decode_output-marked order t runes) in
    (
      decode_output_utf8 t h,
      decode_output_unmarked t h ∙ read_back little_endian,
      marked_back little_endian,
      marked_back big_endian,
    )
