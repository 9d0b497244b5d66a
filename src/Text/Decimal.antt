-- ===== src/Text/Decimal.antt =====
-- Decimal numbers: strconv.Atoi, strconv.ParseUint in base 10, and what %d and fmt.Sprint print.
use envorca.Prelude.{
  ℕ, zero, suc, ◌+◌, ◌-◌, ◌*◌, ◌/◌, ◌%◌, ◌^◌, true, false, ◌||◌, Option, none, some, [], ◌∷◌, ltb,
  leb, ◌==◌, if◌then◌else◌, ℤ, pos, neg,
}
use envorca.Text.{Text}

-- The number that digits spell behind `n`, or none at the first other byte.
unfoldable pub digits_value : ℕ → Text → Option ℕ
digits_value n [] = some n
digits_value n (c ∷ s) = elim (ltb c b'0' || ltb b'9' c) [
  | true ↦ none
  | false ↦ digits_value (n * 10 + (c - b'0')) s
]

unfoldable pub decimal : Text → Option ℕ
unfolding digits_value
decimal [] = none
decimal (c ∷ s) = digits_value 0 (c ∷ s)

-- A number of at most `top`, or a range error.
abbrev pub at_most : ℕ → Option ℕ → Option ℕ
at_most top none = none
at_most top (some n) = if leb n top then some n else none

-- strconv.ParseUint(s, 10, 64)
unfoldable pub parse_uint : Text → Option ℕ
unfolding decimal
parse_uint s = at_most (2 ^ 64 - 1) (decimal s)

abbrev pub as_pos : Option ℕ → Option ℤ
as_pos none = none
as_pos (some n) = some (pos n)

abbrev pub as_neg : Option ℕ → Option ℤ
as_neg none = none
as_neg (some n) = some (neg n)

-- strconv.Atoi into a 64-bit int, with a sign or none.
unfoldable pub atoi : Text → Option ℤ
unfolding decimal
atoi [] = none
atoi (c ∷ s) =
    if c == b'-'
    then as_neg (at_most (2 ^ 63) (decimal s))
    else if c == b'+'
    then as_pos (at_most (2 ^ 63 - 1) (decimal s))
    else as_pos (at_most (2 ^ 63 - 1) (decimal (c ∷ s)))

-- The digits of `n` in front of `out`. The fuel `suc n` is enough, as each round divides by ten.
unfoldable pub digits_from : ℕ → ℕ → Text → Text
digits_from zero n out = out
digits_from (suc fuel) n out = elim (ltb n 10) [
  | true ↦ (b'0' + n) ∷ out
  | false ↦ digits_from fuel (n / 10) ((b'0' + n % 10) ∷ out)
]

-- strconv.Itoa, and %d, of a number that is not negative
unfoldable pub itoa : ℕ → Text
unfolding digits_from
itoa n = digits_from (suc n) n []
