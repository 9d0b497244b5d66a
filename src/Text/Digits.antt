-- ===== src/Text/Digits.antt =====
-- Decimal numbers, printed and read (strconv.Itoa and strconv.Atoi).
use envorca.Prelude.{
  ℕ, zero, suc, ◌+◌, ◌/◌, ◌^◌, ◌<◌, ◌≤◌, ◌≡◌, refl, ap, ◌∙◌, some, [], ◌∷◌, ltb, All, Bool-cases,
  arith, pos, inl, inr, sym,
}
use envorca.Text.{Text}
use envorca.Text.Decimal.{digits_value, decimal, atoi, digits_from, itoa}

abbrev pub Digit : ℕ → Type 0
Digit c = (48 ≤ c) × (c ≤ 57)

abbrev pub Digits : Text → Type 0
Digits s = (c : ℕ) × (t : Text) × (s ≡ c ∷ t) × Digit c × All Digit t

digits_value-digits_from :
    (fuel n : ℕ) (out : Text)
    → n < fuel
    → digits_value 0 (digits_from fuel n out) ≡ digits_value n out
unfolding digits_value digits_from
digits_value-digits_from zero n out h = absurd (omega arith)
digits_value-digits_from (suc fuel) n out h = elim (Bool-cases (ltb n 10)) [
  | inl t ↦ rw (t, digits_from) ground arith
  | inr f ↦
      rw (f, digits_from) (digits_value-digits_from fuel (n / 10) _ (ground arith) ∙ ground arith)
]

digits_from-Digits :
    (fuel n : ℕ) (out : Text) → n < fuel → All Digit out → Digits (digits_from fuel n out)
unfolding digits_from
digits_from-Digits zero n out h d = absurd (omega arith)
digits_from-Digits (suc fuel) n out h d = elim (Bool-cases (ltb n 10)) [
  | inl t ↦ rw (t, digits_from) (48 + n, out, refl, (ground arith, ground arith), d)
  | inr f ↦
      rw (f, digits_from)
        (digits_from-Digits fuel (n / 10) _ (ground arith) ((omega arith, omega arith), d))
]

pub itoa-Digits : (n : ℕ) → Digits (itoa n)
unfolding itoa
itoa-Digits n = digits_from-Digits (suc n) n [] (omega arith) tt

digits_value-itoa : (n : ℕ) → digits_value 0 (itoa n) ≡ some n
unfolding itoa digits_value
digits_value-itoa n = digits_value-digits_from (suc n) n [] (omega arith)

atoi-digits :
    (c : ℕ) (s : Text) (n : ℕ)
    → Digit c
    → digits_value 0 (c ∷ s) ≡ some n
    → n < 2 ^ 63
    → atoi (c ∷ s) ≡ some (pos n)
unfolding atoi decimal
atoi-digits c s n d e h = rw e (ground arith)

-- Atoi reads back what Itoa prints, for the numbers of an int.
pub atoi-itoa : (n : ℕ) → n < 2 ^ 63 → atoi (itoa n) ≡ some (pos n)
atoi-itoa n h =
    let (c, t, e, d, _) = itoa-Digits n in
    rw e (atoi-digits c t n d (ap (digits_value 0) (sym e) ∙ digits_value-itoa n) h)
