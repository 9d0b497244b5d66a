-- ===== src/Wsl/FirstWay.antt =====
-- Which way to match a piece of verboseLine succeeds first.
use envorca.Prelude.{
  ℕ, ◌≤◌, ◌≡◌, refl, sym, ap, ◌∙◌, inl, inr, false, Option, Option-cases, none, some, List, [], ◌∷◌,
  ◌++◌, map, All, length, ◌==◌, if◌then◌else◌, arith,
}
use envorca.Text.{Text}
use envorca.Wsl.Listing.{first, re_space, spaces, spaces_one, spaces_two, prepend, names}
use envorca.Wsl.Pieces.{first_found, first_next, Blank}

-- No byte of white space.
abbrev pub IsSolid : Text → Type 0
IsSolid s = All (λ c. re_space c ≡ false) s

-- The longest run of white space comes first.
spaces_first :
    (gap : Text) (c : ℕ) (s : Text)
    → Blank gap
    → re_space c ≡ false
    → (more : List Text) × (spaces (gap ++ c ∷ s) ≡ (c ∷ s) ∷ more)
unfolding spaces
spaces_first [] c s blank solid = ([], rw solid refl)
spaces_first (d ∷ gap) c s (t, blank) solid =
    let (more, e) = spaces_first gap c s blank solid in
    (more ++ (d ∷ (gap ++ c ∷ s)) ∷ [], rw (t, e) refl)

module _ {B : Type 0} (f : Text → Option B) (c : ℕ) (s : Text) {b : B} where
  pub first-spaces :
      (gap : Text)
      → Blank gap
      → re_space c ≡ false
      → f (c ∷ s) ≡ some b
      → first f (spaces (gap ++ c ∷ s)) ≡ some b
  first-spaces gap blank solid h =
      let (more, e) = spaces_first gap c s blank solid in
      ap (first f) e ∙ first_found f (c ∷ s) more h

  pub first-spaces_one :
      (gap : Text)
      → Blank gap
      → 1 ≤ length gap
      → re_space c ≡ false
      → f (c ∷ s) ≡ some b
      → first f (spaces_one (gap ++ c ∷ s)) ≡ some b
  unfolding spaces_one
  first-spaces_one [] blank wide solid h = absurd (omega arith)
  first-spaces_one (d ∷ gap) (t, blank) wide solid h = rw t (first-spaces gap blank solid h)

  pub first-spaces_two :
      (gap : Text)
      → Blank gap
      → 2 ≤ length gap
      → re_space c ≡ false
      → f (c ∷ s) ≡ some b
      → first f (spaces_two (gap ++ c ∷ s)) ≡ some b
  unfolding spaces_two
  first-spaces_two [] blank wide solid h = absurd (omega arith)
  first-spaces_two (d ∷ gap) (t, blank) wide solid h =
      rw t (first-spaces_one gap blank (omega arith) solid h)

first-map :
    {A B C : Type 0} (f : B → Option C) (g : A → B) (xs : List A)
    → first f (map g xs) ≡ first (λ x. f (g x)) xs
unfolding first
first-map f g [] = refl
first-map f g (x ∷ xs) = elim (Option-cases (f (g x))) [
  | inr (r, e) ↦ first_found f (g x) (map g xs) e ∙ sym (first_found (λ y. f (g y)) x xs e)
  | inl e ↦
      first_next f (g x) (map g xs) e ∙ (first-map f g xs ∙ sym (first_next (λ y. f (g y)) x xs e))
]

names_solid :
    (c : ℕ) (s : Text)
    → re_space c ≡ false
    → names (c ∷ s) ≡ (c ∷ [], s) ∷ map (prepend c) (names s)
unfolding names
names_solid c s solid =
    let other : (c == b'\n') ≡ false = ground arith in
    ap (λ b. if b then [] else (c ∷ [], s) ∷ map (prepend c) (names s)) other

-- A shorter name would leave no white space.
pub first-names :
    {B : Type 0} (f : Text × Text → Option B) (w s : Text) {b : B}
    → 1 ≤ length w
    → IsSolid w
    → ((u : Text) (d : ℕ) (v : Text) → re_space d ≡ false → f (u, d ∷ v) ≡ none)
    → f (w, s) ≡ some b
    → first f (names (w ++ s)) ≡ some b
first-names f [] s long solid fails h = absurd (omega arith)
first-names f (c ∷ []) s long (n, solid) fails h =
    ap (first f) (names_solid c s n) ∙ first_found f (c ∷ [], s) _ h
first-names f (c ∷ d ∷ w) s long (n, (o, solid)) fails h =
    ap (first f) (names_solid c _ n)
    ∙ (first_next f (c ∷ [], d ∷ (w ++ s)) _ (fails (c ∷ []) d (w ++ s) o)
        ∙ (first-map f (prepend c) (names (d ∷ (w ++ s)))
            ∙ first-names (λ p. f (prepend c p)) (d ∷ w) s (omega arith) (o, solid)
                (λ u e v k. fails (c ∷ u) e v k) h))

-- `x` is in the list, and `f` fails on all before it.
pub data Reached {A B : Type 0} (f : A → Option B) (x : A) : List A → Type 0 where
  here : {xs : List A} → Reached f x (x ∷ xs)
  later : {y : A} {xs : List A} → f y ≡ none → Reached f x xs → Reached f x (y ∷ xs)

pub first-Reached :
    {A B : Type 0} {f : A → Option B} {x : A} {xs : List A} {r : B}
    → Reached f x xs
    → f x ≡ some r
    → first f xs ≡ some r
first-Reached {xs = []} k h = elim k [ ]
first-Reached {f = f} {x = x} {xs = _ ∷ xs} here h = first_found f x xs h
first-Reached {f = f} {xs = y ∷ xs} (later e k) h = first_next f y xs e ∙ first-Reached k h

pub no_gap :
    {B : Type 0} (f : Text → Option B) (c : ℕ) (s : Text)
    → re_space c ≡ false
    → first f (spaces_two (c ∷ s)) ≡ none
unfolding first spaces_two
no_gap f c s solid = rw solid refl
