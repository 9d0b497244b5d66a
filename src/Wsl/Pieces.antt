-- ===== src/Wsl/Pieces.antt =====
-- The pieces of verboseLine: which ways to match each one tries.
use mathlib.Core.List.{Memᴰ}
use mathlib.Core.List.Memᴰ as MemD
use envorca.Prelude.{
  ℕ, suc, ◌+◌, ◌≤◌, ◌≡◌, ◌↔◌, refl, sym, ap, ◌∙◌, ◌⊎◌, inl, inr, true, false, Bool-cases, Option,
  none, some, Option-cases, List, [], ◌∷◌, ◌++◌, All, length, ◌==◌, arith,
}
use envorca.Text.{Text, cut_prefix}
use envorca.Text.Laws.{cut_prefix-append}
use envorca.Wsl.Listing.{
  first, re_space, spaces, spaces_one, spaces_two, stars, prepend, names, alternative,
  version_digit, only_spaces,
}

pub first_found :
    {A B : Type 0} (f : A → Option B) (x : A) (xs : List A) {r : B}
    → f x ≡ some r
    → first f (x ∷ xs) ≡ some r
unfolding first
first_found f x xs h = rw (h, first) refl

pub first_next :
    {A B : Type 0} (f : A → Option B) (x : A) (xs : List A)
    → f x ≡ none
    → first f (x ∷ xs) ≡ first f xs
unfolding first
first_next f x xs h = rw (h, first) refl

pub first-Mem :
    {A B : Type 0} (f : A → Option B) (xs : List A) {r : B}
    → first f xs ≡ some r
    → (x : A) × Memᴰ x xs × (f x ≡ some r)
unfolding first
first-Mem f [] h = absurd (ground arith)
first-Mem f (x ∷ xs) h = elim (Option-cases (f x)) [
  | inr (r', e) ↦ (x, Memᴰ.head refl, e ∙ (sym (first_found f x xs e) ∙ h))
  | inl e ↦ let (y, m, q) = first-Mem f xs (sym (first_next f x xs e) ∙ h) in (y, Memᴰ.tail m, q)
]

pub first-some :
    {A B : Type 0} (f : A → Option B) (xs : List A) {x : A} {r : B}
    → Memᴰ x xs
    → f x ≡ some r
    → (r' : B) × (first f xs ≡ some r')
first-some f [] m h = absurd (MemD.not-nil m)
first-some f (y ∷ xs) {x} {r} (Memᴰ.head e) h = (r, first_found f y xs (ap f (sym e) ∙ h))
first-some f (y ∷ xs) (Memᴰ.tail m) h = elim (Option-cases (f y)) [
  | inr (r', e) ↦ (r', first_found f y xs e)
  | inl e ↦ let (r', q) = first-some f xs m h in (r', first_next f y xs e ∙ q)
]

-- White space of the expression.
abbrev pub Blank : Text → Type 0
Blank s = All (λ c. re_space c ≡ true) s

-- `s` is a text of white space, of `n` bytes at least, and then `r`.
abbrev pub After : ℕ → Text → Text → Type 0
After n s r = (gap : Text) × (s ≡ gap ++ r) × Blank gap × (n ≤ length gap)

After-cons :
    (n c : ℕ) (s : Text) {r : Text} → re_space c ≡ true → After n s r → After (suc n) (c ∷ s) r
After-cons n c s t (gap, e, blank, long) = (c ∷ gap, ap (λ u. c ∷ u) e, (t, blank), omega arith)

After-weaken : (n m : ℕ) {s r : Text} → m ≤ n → After n s r → After m s r
After-weaken n m k (gap, e, blank, long) = (gap, e, blank, omega arith)

pub spaces-After : (s : Text) {r : Text} → Memᴰ r (spaces s) → After 0 s r
unfolding spaces
spaces-After [] m = ([], sym (MemD.eq_of_singleton m), tt, omega arith)
spaces-After (c ∷ s) m = elim (Bool-cases (re_space c)) [
  | inr f ↦ ([], sym (MemD.eq_of_singleton (rw f at m)), tt, omega arith)
  | inl t ↦ elim (MemD.append_cases (spaces s) (rw t at m)) [
    | inl k ↦ After-weaken 1 0 (omega arith) (After-cons 0 c s t (spaces-After s k))
    | inr k ↦ ([], sym (MemD.eq_of_singleton k), tt, omega arith)
  ]
]

spaces_self : (s : Text) → Memᴰ s (spaces s)
unfolding spaces
spaces_self [] = Memᴰ.head refl
spaces_self (c ∷ s) = elim (Bool-cases (re_space c)) [
  | inr f ↦ rw f (Memᴰ.head refl)
  | inl t ↦ rw t (MemD.append_right (spaces s) (Memᴰ.head refl))
]

spaces-append : (gap r : Text) → Blank gap → Memᴰ r (spaces (gap ++ r))
unfolding spaces
spaces-append [] r blank = spaces_self r
spaces-append (c ∷ gap) r (t, blank) =
    rw t (MemD.append_left ((c ∷ (gap ++ r)) ∷ []) (spaces-append gap r blank))

-- `\s*`, `\s+` and `\s{2}` try exactly the texts that white space leaves, where there is enough of it.
pub spaces_tried : (s r : Text) → Memᴰ r (spaces s) ↔ After 0 s r
spaces_tried s r = (spaces-After s, λ (gap, e, blank, long). rw e (spaces-append gap r blank))

spaces_one-After : (s : Text) {r : Text} → Memᴰ r (spaces_one s) → After 1 s r
unfolding spaces_one
spaces_one-After [] m = absurd (MemD.not-nil m)
spaces_one-After (c ∷ s) m = elim (Bool-cases (re_space c)) [
  | inr f ↦ absurd (MemD.not-nil (rw f at m))
  | inl t ↦ After-cons 0 c s t (spaces-After s (rw t at m))
]

spaces_one-append : (gap r : Text) → Blank gap → 1 ≤ length gap → Memᴰ r (spaces_one (gap ++ r))
unfolding spaces_one
spaces_one-append [] r blank long = absurd (omega arith)
spaces_one-append (c ∷ gap) r (t, blank) long = rw t (spaces-append gap r blank)

pub spaces_one_tried : (s r : Text) → Memᴰ r (spaces_one s) ↔ After 1 s r
spaces_one_tried s r =
    (spaces_one-After s, λ (gap, e, blank, long). rw e (spaces_one-append gap r blank long))

spaces_two-After : (s : Text) {r : Text} → Memᴰ r (spaces_two s) → After 2 s r
unfolding spaces_two
spaces_two-After [] m = absurd (MemD.not-nil m)
spaces_two-After (c ∷ s) m = elim (Bool-cases (re_space c)) [
  | inr f ↦ absurd (MemD.not-nil (rw f at m))
  | inl t ↦ After-cons 1 c s t (spaces_one-After s (rw t at m))
]

spaces_two-append : (gap r : Text) → Blank gap → 2 ≤ length gap → Memᴰ r (spaces_two (gap ++ r))
unfolding spaces_two
spaces_two-append [] r blank long = absurd (omega arith)
spaces_two-append (c ∷ gap) r (t, blank) long = rw t (spaces_one-append gap r blank (omega arith))

pub spaces_two_tried : (s r : Text) → Memᴰ r (spaces_two s) ↔ After 2 s r
spaces_two_tried s r =
    (spaces_two-After s, λ (gap, e, blank, long). rw e (spaces_two-append gap r blank long))

-- `(.+?)`: a text that is not empty and stays in its line.
abbrev pub IsName : Text → Type 0
IsName w = (1 ≤ length w) × All (λ c. (c == b'\n') ≡ false) w

names-IsName : (s : Text) (p : Text × Text) → Memᴰ p (names s) → (s ≡ p.0 ++ p.1) × IsName p.0
unfolding names
names-IsName [] p m = absurd (MemD.not-nil m)
names-IsName (c ∷ s) p m = elim (Bool-cases (c == b'\n')) [
  | inl t ↦ absurd (MemD.not-nil (rw t at m))
  | inr f ↦ elim (MemD.cases_cons (rw f at m)) [
    | inl e ↦ rw e (refl, (omega arith, (f, tt)))
    | inr k ↦
        let (q, n, e) = MemD.of_map (prepend c) (names s) k in
        let (read, (long, h)) = names-IsName s q n in
        rw (← e) (ap (λ u. c ∷ u) read, (omega arith, (f, h)))
  ]
]

names-append : (w r : Text) → IsName w → Memᴰ (w, r) (names (w ++ r))
unfolding names
names-append [] r (long, h) = absurd (omega arith)
names-append (c ∷ []) r (long, (f, h)) = rw f (Memᴰ.head refl)
names-append (c ∷ d ∷ w) r (long, (f, h)) =
    rw f (Memᴰ.tail (MemD.map (prepend c) (names-append (d ∷ w) r (omega arith, h))))

pub names_tried : (s : Text) (p : Text × Text) → Memᴰ p (names s) ↔ ((s ≡ p.0 ++ p.1) × IsName p.0)
names_tried s p = (names-IsName s p, λ (e, h). rw e (names-append p.0 p.1 h))

-- `(\*?)`
abbrev pub IsStar : Text → Type 0
IsStar w = (w ≡ []) ⊎ (w ≡ b'*' ∷ [])

stars-IsStar : (s : Text) (p : Text × Text) → Memᴰ p (stars s) → (s ≡ p.0 ++ p.1) × IsStar p.0
unfolding stars
stars-IsStar [] p m = rw (MemD.eq_of_singleton m) (refl, inl refl)
stars-IsStar (c ∷ s) p m = elim (Bool-cases (c == b'*')) [
  | inr f ↦ rw (MemD.eq_of_singleton (rw f at m)) (refl, inl refl)
  | inl t ↦ elim (MemD.cases_cons (rw t at m)) [
    | inl e ↦ rw e (refl, inr (ap (λ d. d ∷ []) (ground arith)))
    | inr k ↦ rw (MemD.eq_of_singleton k) (refl, inl refl)
  ]
]

stars_none : (s : Text) → Memᴰ ([], s) (stars s)
unfolding stars
stars_none [] = Memᴰ.head refl
stars_none (c ∷ s) = elim (Bool-cases (c == b'*')) [
  | inr f ↦ rw f (Memᴰ.head refl)
  | inl t ↦ rw t (Memᴰ.tail (Memᴰ.head refl))
]

stars-append : (w r : Text) → IsStar w → Memᴰ (w, r) (stars (w ++ r))
unfolding stars
stars-append w r (inl e) = rw e (stars_none r)
stars-append w r (inr e) = rw e (Memᴰ.head refl)

pub stars_tried : (s : Text) (p : Text × Text) → Memᴰ p (stars s) ↔ ((s ≡ p.0 ++ p.1) × IsStar p.0)
stars_tried s p = (stars-IsStar s p, λ (e, h). rw e (stars-append p.0 p.1 h))

pub cut_prefix_inverse : (s p : Text) {r : Text} → cut_prefix s p ≡ some r → s ≡ p ++ r
unfolding cut_prefix
cut_prefix_inverse s [] h = ground arith
cut_prefix_inverse [] (p ∷ ps) h = absurd (ground arith)
cut_prefix_inverse (c ∷ s) (p ∷ ps) h = elim (Bool-cases (c == p)) [
  | inr f ↦ absurd (let g = rw (f, cut_prefix) at h in ground arith)
  | inl t ↦
      let rest = cut_prefix_inverse s ps (rw (t, cut_prefix) at h) in
      let same : c ≡ p = ground arith in ap (λ d. d ∷ s) same ∙ ap (λ u. p ∷ u) rest
]

pub alternative_found :
    (w s : Text) {r : Text} → cut_prefix s w ≡ some r → alternative w s ≡ some (w, r)
alternative_found w s e = rw (e, alternative) refl

some_injective : {A : Type 0} {a b : A} → some a ≡ some b → a ≡ b
some_injective e = cc

alternative_read :
    (w s : Text) (p : Text × Text) → alternative w s ≡ some p → (s ≡ p.0 ++ p.1) × (p.0 ≡ w)
alternative_read w s p h = elim (Option-cases (cut_prefix s w)) [
  | inl e ↦ absurd (let g = rw (e, alternative) at h in ground arith)
  | inr (r, e) ↦
      let q : (w, r) ≡ p = some_injective (sym (alternative_found w s e) ∙ h) in
      rw (← q) (cut_prefix_inverse s w e, refl)
]

pub alternative_tried :
    (w s : Text) (p : Text × Text) → (alternative w s ≡ some p) ↔ ((s ≡ p.0 ++ p.1) × (p.0 ≡ w))
alternative_tried w s p = (
  alternative_read w s p,
  λ (e, k).
      ap (alternative w) (e ∙ ap (λ u. u ++ p.1) k)
      ∙ (alternative_found w (w ++ p.1) (cut_prefix-append w p.1)
          ∙ ap (λ u. some (u, p.1)) (sym k)),
)

pub version_digit_tried :
    (s : Text) (v : ℕ) (r : Text)
    → (version_digit s ≡ some (v, r)) ↔ ((s ≡ (48 + v) ∷ r) × ((v ≡ 1) ⊎ (v ≡ 2)))
unfolding version_digit
version_digit_tried [] v r = ground arith
version_digit_tried (c ∷ s) v r = ground arith

pub only_spaces_tried : (s : Text) → (only_spaces s ≡ true) ↔ Blank s
unfolding only_spaces
only_spaces_tried [] = ((λ h. tt), (λ h. refl))
only_spaces_tried (c ∷ s) = ground (arith, only_spaces_tried s)
