-- ===== src/Text.antt =====
-- Go strings as lists of UTF-8 bytes, with the functions of the packages strings and bytes that
-- the daemon and the command line call.
pub mod Decimal
pub mod Laws
pub mod Digits
pub mod Trim
use Prim.Native.Char.{code}
use envorca.Prelude.{
  ℕ, zero, suc, ◌+◌, ◌*◌, ◌/◌, ◌%◌, String, Bool, true, false, ◌&&◌, ◌||◌, Option, none, some, List,
  [], ◌∷◌, ◌++◌, map, ltb, leb, ◌==◌, if◌then◌else◌,
}

abbrev pub Text : Type 0
Text = List ℕ

-- utf8.AppendRune: surrogates and numbers past U+10FFFF become U+FFFD.
unfoldable pub utf8 : ℕ → Text
utf8 c =
    if ltb c 0x80
    then c ∷ []
    else if ltb c 0x800
    then (0xc0 + c / 64) ∷ (0x80 + c % 64) ∷ []
    else if (leb 0xd800 c && leb c 0xdfff) || ltb 0x10ffff c
    then 0xef ∷ 0xbf ∷ 0xbd ∷ []
    else if ltb c 0x10000
    then (0xe0 + c / 4096) ∷ (0x80 + c / 64 % 64) ∷ (0x80 + c % 64) ∷ []
    else (0xf0 + c / 262144) ∷ (0x80 + c / 4096 % 64) ∷ (0x80 + c / 64 % 64) ∷ (0x80 + c % 64) ∷ []

-- The bytes of a literal.
unfoldable pub bytes : String → Text
unfolding utf8
bytes String.[] = []
bytes (String.◌∷◌ c s) = utf8 (code c) ++ bytes s

unfoldable pub text_eq : Text → Text → Bool
text_eq [] [] = true
text_eq [] (d ∷ t) = false
text_eq (c ∷ s) [] = false
text_eq (c ∷ s) (d ∷ t) = c == d && text_eq s t

-- strings.CutPrefix: what follows the prefix.
unfoldable pub cut_prefix : Text → Text → Option Text
cut_prefix s [] = some s
cut_prefix [] (p ∷ ps) = none
cut_prefix (c ∷ s) (p ∷ ps) = elim (c == p) [ true ↦ cut_prefix s ps | false ↦ none ]

-- strings.HasPrefix
unfoldable pub has_prefix : Text → Text → Bool
unfolding cut_prefix
has_prefix s p = elim (cut_prefix s p) [ none ↦ false | some _ ↦ true ]

-- strings.TrimPrefix
unfoldable pub trim_prefix : Text → Text → Text
unfolding cut_prefix
trim_prefix s p = elim (cut_prefix s p) [ none ↦ s | some rest ↦ rest ]

-- strings.Contains
unfoldable pub contains : Text → Text → Bool
unfolding has_prefix
contains [] k = has_prefix [] k
contains (c ∷ s) k = has_prefix (c ∷ s) k || contains s k

-- strings.Index of one byte
unfoldable pub index_byte : Text → ℕ → Option ℕ
index_byte [] b = none
index_byte (c ∷ s) b = elim (c == b) [
  | true ↦ some 0
  | false ↦ elim (index_byte s b) [ none ↦ none | some i ↦ some (suc i) ]
]

-- strings.Split at one byte
unfoldable pub split : Text → ℕ → List Text
split [] sep = [] ∷ []
split (c ∷ s) sep = elim (c == sep) [
  | true ↦ [] ∷ split s sep
  | false ↦ elim (split s sep) [ [] ↦ (c ∷ []) ∷ [] | w ∷ ws ↦ (c ∷ w) ∷ ws ]
]

-- The Kelvin sign (three bytes) and the dotted capital I (two bytes) are the letters past ASCII whose
-- lower case is ASCII.
is_kelvin_sign : Text → Bool
is_kelvin_sign s = has_prefix s (0xe2 ∷ 0x84 ∷ 0xaa ∷ [])

is_dotted_i : Text → Bool
is_dotted_i s = has_prefix s (0xc4 ∷ 0xb0 ∷ [])

-- The lower case of the letter that a text begins with, and how many more bytes that letter has.
lower_letter : ℕ → Text → ℕ
lower_letter c s =
    if leb b'A' c && leb c b'Z'
    then c + 32
    else if is_kelvin_sign s
    then b'k'
    else if is_dotted_i s
    then b'i'
    else c

letter_rest : Text → ℕ
letter_rest s = if is_kelvin_sign s then 2 else if is_dotted_i s then 1 else 0

lower_from : ℕ → Text → Text
lower_from k [] = []
lower_from (suc k) (c ∷ s) = lower_from k s
lower_from zero (c ∷ s) = lower_letter c (c ∷ s) ∷ lower_from (letter_rest (c ∷ s)) s

-- strings.ToLower. The other letters past ASCII are kept as they are: their lower case is not
-- ASCII either, so a test for an ASCII substring comes out as in Go.
unfoldable pub to_lower : Text → Text
unfolding lower_from lower_letter letter_rest is_kelvin_sign is_dotted_i has_prefix
to_lower s = lower_from 0 s
