-- ===== src/Wsl/Reading.antt =====
-- What a line is that verboseLine matches, independent of how the match is found.
use mathlib.Core.List.{Memᴰ}
use mathlib.Core.List.Memᴰ as MemD
use envorca.Prelude.{
  ℕ, ◌+◌, ◌≡◌, refl, sym, ap, ◌∙◌, ◌⊎◌, inl, inr, Bool-cases, none, some, Option-cases, ◌∷◌, ◌++◌,
  arith,
}
use envorca.Text.{Text}
use envorca.Wsl.Listing.{
  first, stars, spaces, spaces_one, spaces_two, names, alternative, states, version_digit,
  only_spaces, Match, match_version, with_state, match_state, match_name, find_submatch,
}
use envorca.Wsl.Pieces.{
  first-Mem, first-some, Blank, After, spaces_tried, spaces_one_tried, spaces_two_tried, IsName,
  names_tried, IsStar, stars_tried, alternative_tried, version_digit_tried, only_spaces_tried,
}

-- The version of a match, 1 or 2, and white space to the end.
abbrev pub ReadsVersion : Match → Text → Type 0
ReadsVersion m s =
    (rest : Text) × (s ≡ (48 + m.version) ∷ rest) × ((m.version ≡ 1) ⊎ (m.version ≡ 2)) × Blank rest

-- Its state, white space, and the version.
abbrev pub ReadsState : Match → Text → Type 0
ReadsState m s =
    (rest : Text) × (after : Text) × (s ≡ m.state ++ rest)
    × Memᴰ m.state states
    × After 1 rest after
    × ReadsVersion m after

-- Its name, two or more bytes of white space, and the state.
abbrev pub ReadsName : Match → Text → Type 0
ReadsName m s =
    (rest : Text) × (after : Text) × (s ≡ m.name ++ rest)
    × IsName m.name
    × After 2 rest after
    × ReadsState m after

-- An asterisk or none, white space, and the name.
abbrev pub ReadsLine : Match → Text → Type 0
ReadsLine m s =
    (rest : Text) × (after : Text) × (s ≡ m.star ++ rest)
    × IsStar m.star
    × After 0 rest after
    × ReadsName m after

abbrev match_of : Text → Text → Text → ℕ → Match
match_of star name state v = record { star = star; name = name; state = state; version = v }

match_version_read :
    (star name state s : Text) {m : Match}
    → match_version star name state s ≡ some m
    → (m.star ≡ star) × (m.name ≡ name) × (m.state ≡ state) × ReadsVersion m s
unfolding match_version
match_version_read star name state s {m} h = elim (Option-cases (version_digit s)) [
  | inl e ↦ absurd (let g = rw (e, match_version) at h in ground arith)
  | inr ((v, rest), e) ↦ elim (Bool-cases (only_spaces rest)) [
    | inr f ↦ absurd (let g = rw (e, match_version, f) at h in ground arith)
    | inl t ↦
        let made : some (match_of star name state v) ≡ some m = rw (e, match_version, t) at h in
        let same : match_of star name state v ≡ m = cc in
        let (read, digit) = (version_digit_tried s v rest).0 e in
        rw (← same) (refl, refl, refl, (rest, read, digit, (only_spaces_tried rest).0 t))
  ]
]

pub match_version_found :
    (m : Match) (s : Text) → ReadsVersion m s → match_version m.star m.name m.state s ≡ some m
unfolding match_version
match_version_found m s (rest, read, digit, blank) =
    rw
      (
        (version_digit_tried s m.version rest).1 (read, digit),
        match_version,
        (only_spaces_tried rest).1 blank,
      )
      refl

match_state_read :
    (star name s : Text) {m : Match}
    → match_state star name s ≡ some m
    → (m.star ≡ star) × (m.name ≡ name) × ReadsState m s
unfolding match_state
match_state_read star name s {m} h =
    let (w, listed, f) = first-Mem (λ w. with_state star name (alternative w s)) states h in
    elim (Option-cases (alternative w s)) [
      | inl e ↦ absurd (let g = sym (ap (with_state star name) e) ∙ f in ground arith)
      | inr ((state, rest), e) ↦
          let tried : first (match_version star name state) (spaces_one rest) ≡ some m =
            rw e at f in
          let (after, left, g) = first-Mem _ (spaces_one rest) tried in
          let (same_star, same_name, same_state, version) =
            match_version_read star name state after g in
          let (read, same) = (alternative_tried w s (state, rest)).0 e in
          (
            same_star,
            same_name,
            (
              rest,
              after,
              read ∙ ap (λ u. u ++ rest) (sym same_state),
              MemD.cast (same_state ∙ same) listed,
              (spaces_one_tried rest after).0 left,
              version,
            ),
          )
    ]

match_state_found :
    (m : Match) (s : Text) → ReadsState m s → (m' : Match) × (match_state m.star m.name s ≡ some m')
unfolding match_state
match_state_found m s (rest, after, read, listed, gap, version) =
    let (m', e) =
      first-some (match_version m.star m.name m.state) (spaces_one rest)
        ((spaces_one_tried rest after).1 gap) (match_version_found m after version) in
    let found : with_state m.star m.name (alternative m.state s) ≡ some m' =
      ap (with_state m.star m.name) ((alternative_tried m.state s (m.state, rest)).1 (read, refl))
      ∙ e in
    first-some (λ w. with_state m.star m.name (alternative w s)) states listed found

match_name_read :
    (star s : Text) {m : Match} → match_name star s ≡ some m → (m.star ≡ star) × ReadsName m s
unfolding match_name
match_name_read star s {m} h =
    let ((name, rest), named, f) = first-Mem _ (names s) h in
    let (after, left, g) = first-Mem _ (spaces_two rest) f in
    let (same_star, same_name, state) = match_state_read star name after g in
    let (read, is_name) = (names_tried s (name, rest)).0 named in
    (
      same_star,
      (
        rest,
        after,
        read ∙ ap (λ u. u ++ rest) (sym same_name),
        rw same_name is_name,
        (spaces_two_tried rest after).0 left,
        state,
      ),
    )

match_name_found :
    (m : Match) (s : Text) → ReadsName m s → (m' : Match) × (match_name m.star s ≡ some m')
unfolding match_name
match_name_found m s (rest, after, read, is_name, gap, state) =
    let (m₁, e₁) = match_state_found m after state in
    let (m₂, e₂) =
      first-some (match_state m.star m.name) (spaces_two rest) ((spaces_two_tried rest after).1 gap)
        e₁ in
    first-some (λ p. first (match_state m.star p.0) (spaces_two p.1)) (names s)
      ((names_tried s (m.name, rest)).1 (read, is_name)) e₂

find_submatch_read : (s : Text) {m : Match} → find_submatch s ≡ some m → ReadsLine m s
unfolding find_submatch
find_submatch_read s {m} h =
    let ((star, rest), starred, f) = first-Mem _ (stars s) h in
    let (after, left, g) = first-Mem _ (spaces rest) f in
    let (same_star, name) = match_name_read star after g in
    let (read, is_star) = (stars_tried s (star, rest)).0 starred in
    (
      rest,
      after,
      read ∙ ap (λ u. u ++ rest) (sym same_star),
      rw same_star is_star,
      (spaces_tried rest after).0 left,
      name,
    )

find_submatch_found :
    (s : Text) (m : Match) → ReadsLine m s → (m' : Match) × (find_submatch s ≡ some m')
unfolding find_submatch
find_submatch_found s m (rest, after, read, is_star, gap, name) =
    let (m₁, e₁) = match_name_found m after name in
    let (m₂, e₂) =
      first-some (match_name m.star) (spaces rest) ((spaces_tried rest after).1 gap) e₁ in
    first-some (λ p. first (match_name p.0) (spaces p.1)) (stars s)
      ((stars_tried s (m.star, rest)).1 (read, is_star)) e₂

-- The search for a match of verboseLine decides whether the line is one: an asterisk or none, white space, a name, two
-- or more bytes of white space, one of the five states, white space, the digit 1 or 2, and white space. If
-- there is a match, the four groups read the line in this way; and if there is none, no groups do.
pub find_submatch_decides :
    (line : Text)
    → ((m : Match) × (find_submatch line ≡ some m) × ReadsLine m line)
      ⊎ ((find_submatch line ≡ none) × ¬ ((m : Match) × ReadsLine m line))
find_submatch_decides line = elim (Option-cases (find_submatch line)) [
  | inr (m, e) ↦ inl (m, e, find_submatch_read line e)
  | inl e ↦ inr (
    e,
    λ (m, reads).
        let (m', found) = find_submatch_found line m reads in
        let clash = sym e ∙ found in ground arith,
  )
]
