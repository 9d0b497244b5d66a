-- ===== src/Text/Trim.antt =====
-- strings.TrimSpace and strings.Fields, for the white space of Unicode in UTF-8.
use envorca.Prelude.{
  ℕ, zero, suc, Bool, ◌&&◌, ◌||◌, List, [], ◌∷◌, ◌++◌, reverse, leb, ◌==◌, if◌then◌else◌,
}
use envorca.Text.{Text}

-- \t \n \v \f \r and the space
unfoldable pub space_one : ℕ → Bool
space_one a = (leb 9 a && leb a 13) || a == 32

-- U+0085 and U+00A0
unfoldable pub space_two : ℕ → ℕ → Bool
space_two a b = a == 0xc2 && (b == 0x85 || b == 0xa0)

-- U+1680, U+2000 to U+200A, U+2028, U+2029, U+202F, U+205F and U+3000
unfoldable pub space_three : ℕ → ℕ → ℕ → Bool
space_three a b c =
    (a == 0xe1 && (b == 0x9a && c == 0x80))
    || (a == 0xe3 && (b == 0x80 && c == 0x80))
    || (a == 0xe2 && (b == 0x81 && c == 0x9f))
    || (a == 0xe2 && (b == 0x80 && (leb 0x80 c && leb c 0x8a)))
    || (a == 0xe2 && (b == 0x80 && (c == 0xa8 || (c == 0xa9 || c == 0xaf))))

-- How many bytes of white space a text begins with, at most one character's.
unfoldable pub space_width : Text → ℕ
unfolding space_one space_two space_three
space_width [] = 0
space_width (a ∷ []) = if space_one a then 1 else 0
space_width (a ∷ b ∷ []) = if space_one a then 1 else if space_two a b then 2 else 0
space_width (a ∷ b ∷ c ∷ s) =
    if space_one a then 1 else if space_two a b then 2 else if space_three a b c then 3 else 0

-- The same of the end of a text, which is given backwards.
unfoldable pub space_width_back : Text → ℕ
unfolding space_one space_two space_three
space_width_back [] = 0
space_width_back (c ∷ []) = if space_one c then 1 else 0
space_width_back (c ∷ b ∷ []) = if space_one c then 1 else if space_two b c then 2 else 0
space_width_back (c ∷ b ∷ a ∷ s) =
    if space_one c then 1 else if space_two b c then 2 else if space_three a b c then 3 else 0

-- Drops the `k` bytes of a character, and the spaces that follow.
unfoldable pub skip_spaces : (Text → ℕ) → ℕ → Text → Text
skip_spaces width k [] = []
skip_spaces width (suc k) (c ∷ s) = skip_spaces width k s
skip_spaces width zero (c ∷ s) = elim (width (c ∷ s)) [
  | zero ↦ c ∷ s
  | suc k ↦ skip_spaces width k s
]

-- strings.TrimSpace
unfoldable pub trim_space : Text → Text
unfolding skip_spaces space_width space_width_back
trim_space s = reverse (skip_spaces space_width_back 0 (reverse (skip_spaces space_width 0 s)))

-- What a word that ends adds to the fields.
abbrev pub end_word : Text → List Text → List Text
end_word [] rest = rest
end_word (c ∷ w) rest = (c ∷ w) ∷ rest

unfoldable pub fields_from : ℕ → Text → Text → List Text
fields_from k word [] = end_word word []
fields_from (suc k) word (c ∷ s) = fields_from k word s
fields_from zero word (c ∷ s) = elim (space_width (c ∷ s)) [
  | zero ↦ fields_from 0 (word ++ c ∷ []) s
  | suc k ↦ end_word word (fields_from k [] s)
]

-- strings.Fields
unfoldable pub fields : Text → List Text
unfolding fields_from space_width
fields s = fields_from 0 [] s
